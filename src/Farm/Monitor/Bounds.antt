-- ===== src/Farm/Monitor/Bounds.antt =====
-- When a hub is restarted, and how often.
use wavvon_server.Base.{
  ℕ, ◌+◌, ◌-◌, ◌≤◌, ◌<◌, ◌≡◌, ◌↔◌, refl, ◌∙◌, ap, String, List, [], ◌∷◌, map, Option, none, some,
  arith, any, retain, All, str_eq, eq_iff, Bool-cases, inl, inr, false, if◌then◌else◌,
}
use wavvon_server.Farm.Monitor.{
  Decision, HubRow, Heartbeat, Farm, backoff_secs, is_backing_off, decide, is_supervised, act,
  supervise, tick, max_attempts, offline_threshold_secs,
}
use wavvon_server.Farm.Monitor.Laws.{change, change-id, decision, supervised, UniqueHubs, hubs-tick}

-- The last restart is long enough ago for the next one.
abbrev pub IsDue : ℕ → Option ℕ → ℕ → Type 0
IsDue attempts none now = Unit
IsDue attempts (some t) now = backoff_secs attempts ≤ now - t

-- A hub is restarted exactly when it has been silent for at least 180 seconds, has attempts left,
-- and the last restart is at least the backoff of its attempts ago.
pub decide-restart :
    (seen attempts now : ℕ) (last : Option ℕ)
    → (decide seen attempts last now ≡ Decision.restart) ↔ (
        (offline_threshold_secs ≤ now - seen) × (attempts < max_attempts) × IsDue attempts last now)
unfolding decide is_backing_off
decide-restart seen attempts now none = (λ h. (ground arith, ground arith, tt), λ h. ground arith)
decide-restart seen attempts now (some t) =
    (λ h. (ground arith, ground arith, ground arith), λ h. ground arith)

abbrev pub is_restart : Decision → ℕ
is_restart Decision.healthy = 0
is_restart Decision.backoff = 0
is_restart Decision.restart = 1
is_restart Decision.give_up = 0

-- The attempts of the rows with an id.
abbrev pub attempts_of : String → List HubRow → ℕ
attempts_of id [] = 0
attempts_of id (h ∷ hs) = (if str_eq h.id id then h.restart_attempts else 0) + attempts_of id hs

-- How often an id is among the restarts.
abbrev pub times : String → List String → ℕ
times id [] = 0
times id (r ∷ rs) = (if str_eq r id then 1 else 0) + times id rs

-- How often a loop restarts the rows with an id.
abbrev chosen : ℕ → List Heartbeat → String → List HubRow → ℕ
chosen now beats id [] = 0
chosen now beats id (h ∷ hs) =
    (if str_eq h.id id then is_restart (decision now beats h) else 0) + chosen now beats id hs

times-act :
    (now : ℕ) (id k : String) (d : Decision) (f : Farm)
    → times k (act now id d f).restarts
      ≡ times k f.restarts + (if str_eq id k then is_restart d else 0)
unfolding act
times-act now id k Decision.healthy f = ground arith
times-act now id k Decision.backoff f = ground arith
times-act now id k Decision.restart f = ground arith
times-act now id k Decision.give_up f = ground arith

heartbeats-act :
    (now : ℕ) (id : String) (d : Decision) (f : Farm) → (act now id d f).heartbeats ≡ f.heartbeats
unfolding act
heartbeats-act now id Decision.healthy f = refl
heartbeats-act now id Decision.backoff f = refl
heartbeats-act now id Decision.restart f = refl
heartbeats-act now id Decision.give_up f = refl

heartbeats-supervise :
    (now : ℕ) (beats : List Heartbeat) (hs : List HubRow) (f : Farm)
    → (supervise now beats hs f).heartbeats ≡ f.heartbeats
unfolding supervise
heartbeats-supervise now beats [] f = refl
heartbeats-supervise now beats (h ∷ hs) f =
    heartbeats-supervise now beats hs (act now h.id (decision now beats h) f)
    ∙ heartbeats-act now h.id (decision now beats h) f

pub heartbeats-tick : (now : ℕ) (f : Farm) → (tick now f).heartbeats ≡ f.heartbeats
unfolding tick
heartbeats-tick now f = heartbeats-supervise now f.heartbeats (retain is_supervised f.hubs) f

times-supervise :
    (now : ℕ) (beats : List Heartbeat) (hs : List HubRow) (k : String) (f : Farm)
    → times k (supervise now beats hs f).restarts ≡ times k f.restarts + chosen now beats k hs
unfolding supervise
times-supervise now beats [] k f = omega arith
times-supervise now beats (h ∷ hs) k f = omega (
  arith,
  times-supervise now beats hs k (act now h.id (decision now beats h) f),
  times-act now h.id k (decision now beats h) f,
)

attempts-change :
    (now : ℕ) (d : Decision) (h : HubRow)
    → (change now d h).restart_attempts ≡ h.restart_attempts + is_restart d
attempts-change now Decision.healthy h = omega arith
attempts-change now Decision.backoff h = omega arith
attempts-change now Decision.restart h = omega arith
attempts-change now Decision.give_up h = omega arith

id-supervised : (now : ℕ) (beats : List Heartbeat) (h : HubRow) → (supervised now beats h).id ≡ h.id
id-supervised now beats h = ground (arith, change-id now (decision now beats h) h)

attempts_of-supervised :
    (now : ℕ) (beats : List Heartbeat) (k : String) (hs : List HubRow)
    → attempts_of k (map (supervised now beats) hs)
      ≡ attempts_of k hs + chosen now beats k (retain is_supervised hs)
attempts_of-supervised now beats k [] = omega arith
attempts_of-supervised now beats k (h ∷ hs) = ground (
  arith,
  id-supervised now beats h,
  attempts-change now (decision now beats h) h,
  attempts_of-supervised now beats k hs,
)

-- The counters are within the limit.
abbrev pub AreCounted : List HubRow → Type 0
AreCounted = All (λ h. h.restart_attempts ≤ max_attempts)

attempts-supervised :
    (now : ℕ) (beats : List Heartbeat) (h : HubRow)
    → h.restart_attempts ≤ max_attempts
    → (supervised now beats h).restart_attempts ≤ max_attempts
unfolding decide
attempts-supervised now beats h b = ground arith

AreCounted-supervised :
    (now : ℕ) (beats : List Heartbeat) (hs : List HubRow)
    → AreCounted hs
    → AreCounted (map (supervised now beats) hs)
AreCounted-supervised now beats [] b = tt
AreCounted-supervised now beats (h ∷ hs) b =
    (attempts-supervised now beats h b.0, AreCounted-supervised now beats hs b.1)

any-supervised :
    (now : ℕ) (beats : List Heartbeat) (id : String) (hs : List HubRow)
    → any (λ r. str_eq r.id id) (map (supervised now beats) hs) ≡ any (λ r. str_eq r.id id) hs
any-supervised now beats id [] = refl
any-supervised now beats id (h ∷ hs) =
    rw (id-supervised now beats h, any-supervised now beats id hs)

pub UniqueHubs-supervised :
    (now : ℕ) (beats : List Heartbeat) (hs : List HubRow)
    → UniqueHubs hs
    → UniqueHubs (map (supervised now beats) hs)
UniqueHubs-supervised now beats [] u = tt
UniqueHubs-supervised now beats (h ∷ hs) u = (
  rw (any-supervised now beats (supervised now beats h).id hs, id-supervised now beats h) u.0,
  UniqueHubs-supervised now beats hs u.1,
)

-- Ticks at the given times, with no heartbeat between them.
unfoldable pub ticks : List ℕ → Farm → Farm
ticks [] f = f
ticks (now ∷ ts) f = ticks ts (tick now f)

-- What a tick keeps, and that each restart is counted.
record Step (f g : Farm) : Type 0 where
  unique : UniqueHubs g.hubs
  counted : AreCounted g.hubs
  hubs : (k : String) → any (λ r. str_eq r.id k) g.hubs ≡ any (λ r. str_eq r.id k) f.hubs
  restarts :
      (k : String)
      → times k g.restarts + attempts_of k f.hubs ≡ times k f.restarts + attempts_of k g.hubs

tick-Step : (now : ℕ) (f : Farm) → UniqueHubs f.hubs → AreCounted f.hubs → Step f (tick now f)
unfolding tick
tick-Step now f u c = record {
  unique = rw (hubs-tick now f u) (UniqueHubs-supervised now f.heartbeats f.hubs u);
  counted = rw (hubs-tick now f u) (AreCounted-supervised now f.heartbeats f.hubs c);
  hubs = λ k. rw (hubs-tick now f u) (any-supervised now f.heartbeats k f.hubs);
  restarts = λ k. omega (
    arith,
    times-supervise now f.heartbeats (retain is_supervised f.hubs) k f,
    ap (attempts_of k) (hubs-tick now f u),
    attempts_of-supervised now f.heartbeats k f.hubs,
  );
}

ticks-Step : (ts : List ℕ) (f : Farm) → UniqueHubs f.hubs → AreCounted f.hubs → Step f (ticks ts f)
unfolding ticks
ticks-Step [] f u c = record {
  unique = u;
  counted = c;
  hubs = λ k. refl;
  restarts = λ k. omega arith;
}
ticks-Step (now ∷ ts) f u c =
    let one : Step f (tick now f) = tick-Step now f u c in
    let more : Step (tick now f) (ticks ts (tick now f)) =
      ticks-Step ts (tick now f) one.unique one.counted in
    record {
      unique = more.unique;
      counted = more.counted;
      hubs = λ k. more.hubs k ∙ one.hubs k;
      restarts = λ k. omega (arith, one.restarts k, more.restarts k);
    }

attempts_of-absent :
    (k : String) (hs : List HubRow) → any (λ r. str_eq r.id k) hs ≡ false → attempts_of k hs ≡ 0
attempts_of-absent k [] e = refl
attempts_of-absent k (h ∷ hs) e = ground (arith, attempts_of-absent k hs)

attempts_of-bounded :
    (k : String) (hs : List HubRow)
    → UniqueHubs hs
    → AreCounted hs
    → attempts_of k hs ≤ (if any (λ r. str_eq r.id k) hs then max_attempts else 0)
attempts_of-bounded k [] u c = omega arith
attempts_of-bounded k (h ∷ hs) u c = elim (Bool-cases (str_eq h.id k)) [
  | inl e ↦ ground (arith, eq_iff h.id k, attempts_of-absent k hs, c.0, u.0)
  | inr e ↦ ground (arith, attempts_of-bounded k hs u.1 c.1)
]

-- However often supervision runs while no hub reports, it calls for at most five restarts of each
-- hub of the farm, those that the hub's counter had already counted included, and for none of what
-- is no hub of the farm: the ids are unique and the counters start within the limit.
pub ticks-restarts :
    (ts : List ℕ) (f : Farm) (id : String)
    → UniqueHubs f.hubs
    → AreCounted f.hubs
    → times id (ticks ts f).restarts + attempts_of id f.hubs
      ≤ times id f.restarts + (if any (λ r. str_eq r.id id) f.hubs then 5 else 0)
ticks-restarts ts f id u c =
    let s : Step f (ticks ts f) = ticks-Step ts f u c in
    ground
      (arith, s.restarts id, s.hubs id, attempts_of-bounded id (ticks ts f).hubs s.unique s.counted)
