-- ===== src/Trace/Rotate.antt =====
-- internal/trace/rotate.go: the oldest files go until the rest is young and small enough.
use grok_mcp.Prelude.{
  ℕ, zero, suc, ◌+◌, ◌-◌, ◌*◌, ◌≤◌, String, Bool, true, false, ◌||◌, List, [], ◌∷◌, ◌≡◌, refl, ap,
  ◌∙◌, arith, ltb, drop, All, Bool-cases, inl, inr,
}
use mathlib.Core.List.{Permᴰ}

pub record FileInfo : Type 0 where
  pub path : String
  pub modified : ℕ
  pub size : ℕ

-- Seven days, in nanoseconds.
abbrev pub max_age : ℕ
max_age = 604_800_000_000_000

abbrev pub max_size : ℕ
max_size = 500 * 1024 * 1024

abbrev pub total : List FileInfo → ℕ
total [] = 0
total (f ∷ fs) = f.size + total fs

unfoldable pub is_over : ℕ → ℕ → FileInfo → Bool
is_over now sum f = ltb (f.modified + max_age) now || ltb max_size sum

-- The second loop of `rotate`, with the sum of all sizes so far. `removable` says which files can
-- be removed; the result is the files that are left.
unfoldable pub prune : (FileInfo → Bool) → ℕ → ℕ → List FileInfo → List FileInfo
unfolding is_over
prune removable now sum [] = []
prune removable now sum (f ∷ fs) = elim (is_over now sum f) [
  | false ↦ f ∷ fs
  | true ↦ elim (removable f) [
    | true ↦ prune removable now (sum - f.size) fs
    | false ↦ f ∷ prune removable now sum fs
  ]
]

-- `rotate`; `sort` is the package's sort.Slice by the times of change.
unfoldable pub rotate :
    (List FileInfo → List FileInfo) → (FileInfo → Bool) → ℕ → List FileInfo → List FileInfo
unfolding prune
rotate sort removable now files = prune removable now (total files) (sort files)

-- The files stand in the order of their times, the oldest first.
abbrev pub Ascending : List FileInfo → Type 0
Ascending [] = Unit {0}
Ascending (f ∷ fs) = All (λ g. f.modified ≤ g.modified) fs × Ascending fs

total_perm : {fs gs : List FileInfo} → Permᴰ fs gs → total fs ≡ total gs
total_perm Permᴰ.nil = refl
total_perm (Permᴰ.cons e p) = omega (arith, ap (λ (f : FileInfo). f.size) e, total_perm p)
total_perm (Permᴰ.swap e d) =
    omega (arith, ap (λ (f : FileInfo). f.size) e, ap (λ (f : FileInfo). f.size) d)
total_perm (Permᴰ.trans p q) = total_perm p ∙ total_perm q

All-young :
    (now m : ℕ) (fs : List FileInfo)
    → now ≤ m + max_age
    → All (λ g. m ≤ g.modified) fs
    → All (λ g. now ≤ g.modified + max_age) fs
All-young now m [] h a = tt
All-young now m (g ∷ fs) h a = (omega (arith, a.0), All-young now m fs h a.1)

-- The first `n` files are over the limits, each with those after it.
abbrev pub AreOver : ℕ → ℕ → List FileInfo → Type 0
AreOver now zero files = Unit {0}
AreOver now (suc n) [] = Unit {0}
AreOver now (suc n) (f ∷ fs) = (is_over now (total (f ∷ fs)) f ≡ true) × AreOver now n fs

-- What is left is young and small, and the files before it are gone: `d` of them, and before each
-- the files were too old or too large.
pub record IsPruned (now : ℕ) (files kept : List FileInfo) : Type 0 where
  pub gone : ℕ
  pub newest : kept ≡ drop gone files
  pub young : All (λ f. now ≤ f.modified + max_age) kept
  pub small : total kept ≤ max_size
  pub needed : AreOver now gone files

one_more :
    (now : ℕ) (f : FileInfo) (fs kept : List FileInfo)
    → is_over now (total (f ∷ fs)) f ≡ true
    → IsPruned now fs kept
    → IsPruned now (f ∷ fs) kept
one_more now f fs kept over p = record {
  gone = suc p.gone;
  newest = p.newest;
  young = p.young;
  small = p.small;
  needed = (over, p.needed);
}

prune-IsPruned :
    (removable : FileInfo → Bool) (now sum : ℕ) (files : List FileInfo)
    → ((f : FileInfo) → removable f ≡ true)
    → sum ≡ total files
    → Ascending files
    → IsPruned now files (prune removable now sum files)
unfolding prune is_over
prune-IsPruned removable now sum [] ok e a = record {
  gone = 0;
  newest = refl;
  young = tt;
  small = omega arith;
  needed = tt;
}
prune-IsPruned removable now sum (f ∷ fs) ok e a = elim (Bool-cases (is_over now sum f)) [
  | inr fine ↦
      rw (fine, prune)
        (record {
          gone = 0;
          newest = refl;
          young = (in_time fine, All-young now f.modified fs (in_time fine) a.0);
          small = in_size fine;
          needed = tt;
        })
  | inl over ↦
      rw (over, prune)
        (rw (ok f) (
          one_more now f fs (prune removable now (sum - f.size) fs) (rw (← e) over)
            (prune-IsPruned removable now (sum - f.size) fs ok (omega (arith, e)) a.1)))
]
  where
    in_time : is_over now sum f ≡ false → now ≤ f.modified + max_age
    in_time h = ground arith

    in_size : is_over now sum f ≡ false → total (f ∷ fs) ≤ max_size
    in_size h = ground (arith, e)

-- `rotate` leaves the newest of the files, where the files can be removed and are sorted by their
-- times: each left is at most seven days old, together they have at most 500 MiB, and no more were
-- removed than that takes: before each removal the oldest file was too old or the rest too large.
pub rotate-IsPruned :
    (sort : List FileInfo → List FileInfo) (removable : FileInfo → Bool) (now : ℕ)
    (files : List FileInfo)
    → ((f : FileInfo) → removable f ≡ true)
    → Permᴰ files (sort files)
    → Ascending (sort files)
    → IsPruned now (sort files) (rotate sort removable now files)
unfolding rotate
rotate-IsPruned sort removable now files ok p a =
    prune-IsPruned removable now (total files) (sort files) ok (total_perm p) a
