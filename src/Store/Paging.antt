-- ===== src/Store/Paging.antt =====
-- internal/store/results.go: `Result` returns the text of a turn page by page. A text is the list
-- of its runes; `split` and `join`, Go's `[]rune(s)` and `string(runes)`, are parameters.
use grok_mcp.Prelude.{
  ℕ, ◌+◌, ◌-◌, String, Bool, not, ◌&&◌, ◌||◌, List, Option, none, some, ◌==◌, ℕ_eq, String_eq,
  if◌then◌else◌, find, take, drop, length, ltb,
}
use Prim.Native.Nat.{min}
use grok_mcp.Store.Tables.{TurnResult, Store}

-- `protocol.ResultQuery`; a negative offset or limit is refused before anything else.
pub record ResultQuery : Type 0 where
  pub request_id : String
  pub turn_id : String
  pub offset : ℕ
  pub limit : ℕ

pub record ResultPage : Type 0 where
  pub request_id : String
  pub turn_id : String
  pub text : List ℕ
  pub offset : ℕ
  pub next_offset : ℕ
  pub total : ℕ
  pub has_more : Bool

abbrev pub max_result_limit : ℕ
max_result_limit = 65536

-- The limit in force: none given means 16384.
abbrev pub result_limit : ℕ → ℕ
result_limit limit = if limit == 0 then 16384 else limit

abbrev pub is_result : String → ResultQuery → TurnResult → Bool
is_result id q t =
    t.job_id == id && t.request_id == q.request_id && (q.turn_id == "" || t.turn_id == q.turn_id)

-- `runes[q.Offset:end]`
unfoldable pub page_of : TurnResult → ResultQuery → List ℕ → Option ResultPage
page_of t q runes =
    let total = length runes in
    let end = min (q.offset + result_limit q.limit) total in
    if ltb total q.offset
    then none
    else some (record {
      request_id = t.request_id;
      turn_id = t.turn_id;
      text = take (end - q.offset) (drop q.offset runes);
      offset = q.offset;
      next_offset = end;
      total = total;
      has_more = ltb end total;
    })

module _ (split : String → List ℕ) where
  unfoldable pub result : String → ResultQuery → Store → Option ResultPage
  unfolding page_of
  result id q s =
      if q.request_id == "" || ltb max_result_limit q.limit || not s.readable
      then none
      else elim (find (is_result id q) s.turn_results) [
        | none ↦ none
        | some t ↦ page_of t q (split t.body)
      ]
