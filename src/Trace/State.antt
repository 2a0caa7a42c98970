-- ===== src/Trace/State.antt =====
-- internal/trace/event.go and the state of internal/trace/log.go.
-- A line of a file is a value of the type `Line`; `Codec` is what encoding/json does with lines.
-- A time is a number of nanoseconds, and 0 is Go's zero time.
use grok_mcp.Prelude.{
  ℕ, ◌*◌, String, Bool, true, false, ◌||◌, List, [], Option, none, some, ◌==◌, String_eq,
  if◌then◌else◌,
}

-- A value of a field, and the fields of a map in the order in which they are visited. `other` is
-- any value that is neither a text nor a map[string]any, such as a list or a struct, as its JSON.
mutual
  pub data Value : Type 0 where
    text : String → Value
    number : ℕ → Value
    object : Fields → Value
    other : String → Value

  pub data Fields : Type 0 where
    no_fields : Fields
    field : String → Value → Fields → Fields

pub record Event : Type 0 where
  pub seq : ℕ
  pub time : ℕ
  pub level : String
  pub source : String
  pub name : String
  pub job_id : String
  pub session_id : String
  pub turn_id : String
  pub state : String
  pub view_mode : String
  pub input_owner : String
  pub busy : Option Bool
  pub queue_length : Option ℕ
  pub message : String
  pub fields : Fields

-- `Event.Boundary`
unfoldable pub boundary : Event → Bool
boundary ev =
    ev.name == "plan.ready"
    || ev.name == "acp.prompt.completed"
    || ev.name == "acp.prompt.cancelled"
    || ev.name == "state.transition"
    || ev.name == "watchdog.stalled"
    || ev.name == "session.load.failed"
    || ev.name == "view.attached"
    || ev.name == "view.detached"

abbrev pub max_snapshot_bytes : ℕ
max_snapshot_bytes = 256 * 1024

abbrev pub default_limit : ℕ
default_limit = 200

abbrev pub max_limit : ℕ
max_limit = 1000

pub record DebugOpts : Type 0 where
  pub enabled : Bool
  pub payloads : Bool

abbrev pub no_debug : DebugOpts
no_debug = record { enabled = false; payloads = false }

-- encoding/json on events, and what a scanner sees of a line.
pub record Codec (Line : Type 0) : Type 0 where
  pub marshal : Event → Option Line
  pub unmarshal : Line → Option Event
  -- The length of a line in bytes, without its newline.
  pub size : Line → ℕ
  -- Whether nothing is left of a line when it is trimmed.
  pub is_blank : Line → Bool

-- `Log`, with the files of `root`: `trace_files` by the name of the job, without their ending, and
-- `day_logs` by the day. A map is a function; a key that is missing has Go's zero value.
pub record Log (Line : Type 0) : Type 0 where
  pub seq : String → ℕ
  pub mem : String → List Event
  pub dbg : String → DebugOpts
  pub override : String → Bool
  pub global : DebugOpts
  pub subs : List ℕ
  pub sub_seq : ℕ
  pub writes : ℕ
  pub write_fails : ℕ
  pub closed : Bool
  pub trace_files : String → Option (List Line)
  pub day_logs : ℕ → List Line

-- `m[k] = v`
abbrev pub set {ℓ} : {A : Type ℓ} → (String → A) → String → A → String → A
set m k v j = if k == j then v else m j

-- `Open`: nothing in memory, and the files that an earlier run has left.
unfoldable pub open_log :
    {Line : Type 0} → (String → Option (List Line)) → (ℕ → List Line) → Log Line
open_log files logs = record {
  seq = λ k. 0;
  mem = λ k. [];
  dbg = λ k. no_debug;
  override = λ k. false;
  global = no_debug;
  subs = [];
  sub_seq = 0;
  writes = 0;
  write_fails = 0;
  closed = false;
  trace_files = files;
  day_logs = logs;
}

-- The key of a job's events: those of no job are kept under "_".
abbrev pub key_of : String → String
key_of id = if id == "" then "_" else id

-- The lines of a file; one that does not exist has none.
abbrev pub lines_of {ℓ} : {A : Type ℓ} → Option (List A) → List A
lines_of none = []
lines_of (some ls) = ls

module _ {Line : Type 0} where
  -- `debugLocked`
  unfoldable pub debug_locked : Log Line → String → DebugOpts
  debug_locked l id = if l.override id then l.dbg id else l.global

  -- `setGlobalLocked` and `SetGlobal`
  unfoldable pub set_global : Log Line → DebugOpts → Log Line
  set_global l opts =
      if opts.enabled
      then record l { global = opts }
      else record l { global = opts; dbg = λ k. no_debug; override = λ k. false }

  -- `SetDebug`
  unfoldable pub set_debug : Log Line → String → DebugOpts → Log Line
  set_debug l id opts =
      if id == ""
      then set_global l opts
      else record l { override = set l.override id true; dbg = set l.dbg id opts }

  -- `Close`
  unfoldable pub close : Log Line → Log Line
  close l = record l { closed = true }
