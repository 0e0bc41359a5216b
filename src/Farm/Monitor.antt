-- ===== src/Farm/Monitor.antt =====
-- crates/farm/src/monitor.rs, and the part of routes/heartbeat.rs that it relies on. A time is a
-- number of seconds since the epoch, and the restart counter, which starts at 0, is a natural
-- number. The restart itself is a call of the process manager or of an agent, and its outcome is
-- only logged: a step lists the hubs that it is called for.
pub mod Laws
pub mod Bounds
use wavvon_server.Base.{
  ℕ, ◌+◌, ◌-◌, ◌*◌, ◌^◌, min, String, Bool, true, false, not, ◌&&◌, List, [], ◌∷◌, map, Option,
  none, some, ltb, leb, str_eq, find, any, retain, if◌then◌else◌,
}

abbrev pub offline_threshold_secs : ℕ
offline_threshold_secs = 180

abbrev pub max_attempts : ℕ
max_attempts = 5

pub data Decision : Type 0 where
  healthy backoff restart give_up : Decision

-- `10s * 2^attempts`, at most 300.
unfoldable pub backoff_secs : ℕ → ℕ
backoff_secs attempts = min (10 * 2 ^ attempts) 300

-- The `if let` of `decide`: whether the last restart is too recent.
unfoldable pub is_backing_off : ℕ → Option ℕ → ℕ → Bool
unfolding backoff_secs
is_backing_off attempts none now = false
is_backing_off attempts (some last_restart) now = ltb (now - last_restart) (backoff_secs attempts)

-- A difference that would be negative is below both thresholds, as 0 is.
unfoldable pub decide : ℕ → ℕ → Option ℕ → ℕ → Decision
unfolding is_backing_off
decide effective_last_seen attempts last_restart_at now =
    if ltb (now - effective_last_seen) offline_threshold_secs
    then healthy
    else if leb max_attempts attempts
    then give_up
    else if is_backing_off attempts last_restart_at now
    then backoff
    else restart

-- The columns of `hubs` that supervision reads or writes.
pub record HubRow : Type 0 where
  pub id : String
  pub hub_pubkey : Option String
  pub created_at : ℕ
  pub suspended_at : Option ℕ
  pub deleted_at : Option ℕ
  pub process_port : Option ℕ
  pub auto_restart_enabled : Bool
  pub restart_attempts : ℕ
  pub last_restart_at : Option ℕ

pub record Heartbeat : Type 0 where
  pub hub_pubkey : String
  pub last_seen_at : ℕ

pub record Farm : Type 0 where
  pub hubs : List HubRow
  pub heartbeats : List Heartbeat
  -- The hubs that a restart was called for, the latest first.
  pub restarts : List String

abbrev pub is_null {ℓ} : {A : Type ℓ} → Option A → Bool
is_null none = true
is_null (some a) = false

-- The `WHERE` of the query.
unfoldable pub is_supervised : HubRow → Bool
is_supervised h =
    is_null h.suspended_at
    && (is_null h.deleted_at && (h.auto_restart_enabled && not (is_null h.process_port)))

-- `LEFT JOIN hub_heartbeats`: no pubkey joins nothing.
unfoldable pub last_seen : List Heartbeat → Option String → Option Heartbeat
last_seen beats none = none
last_seen beats (some pk) = find (λ b. str_eq b.hub_pubkey pk) beats

-- `COALESCE(hb.last_seen_at, h.created_at)`
unfoldable pub effective_last_seen : List Heartbeat → HubRow → ℕ
unfolding last_seen
effective_last_seen beats h = elim (last_seen beats h.hub_pubkey) [
  | none ↦ h.created_at
  | some b ↦ b.last_seen_at
]

-- `UPDATE hubs SET … WHERE id = $1`
unfoldable pub update_hub : String → (HubRow → HubRow) → List HubRow → List HubRow
update_hub id f hubs = map (λ h. if str_eq h.id id then f h else h) hubs

abbrev pub count_restart : ℕ → HubRow → HubRow
count_restart now h = record h {
  restart_attempts = h.restart_attempts + 1;
  last_restart_at = some now;
}

abbrev pub disable : HubRow → HubRow
disable h = record h { auto_restart_enabled = false }

-- What the loop does for a decision.
unfoldable pub act : ℕ → String → Decision → Farm → Farm
unfolding update_hub
act now id healthy f = f
act now id backoff f = f
act now id restart f = record f {
  hubs = update_hub id (count_restart now) f.hubs;
  restarts = id ∷ f.restarts;
}
act now id give_up f = record f { hubs = update_hub id disable f.hubs }

-- The loop of `tick`, over the rows that were fetched before it.
unfoldable pub supervise : ℕ → List Heartbeat → List HubRow → Farm → Farm
unfolding effective_last_seen decide act
supervise now beats [] f = f
supervise now beats (h ∷ hs) f =
    supervise now beats hs (
      act now h.id (decide (effective_last_seen beats h) h.restart_attempts h.last_restart_at now)
        f)

unfoldable pub tick : ℕ → Farm → Farm
unfolding is_supervised supervise
tick now f = supervise now f.heartbeats (retain is_supervised f.hubs) f
