-- ===== src/Farm/Heartbeats/Laws.antt =====
-- About heartbeats and supervision together.
use wavvon_server.Base.{
  ℕ, ◌+◌, ◌<◌, ltb, String, true, false, ◌&&◌, ◌≡◌, refl, ◌∙◌, ap, List, [], ◌∷◌, map, Option, none,
  some, inl, inr, arith, str_eq, eq_iff, any, retain, Option-cases, Bool-cases,
}
use wavvon_server.Http.{ok}
use wavvon_server.Farm.Monitor.{
  Decision, HubRow, Heartbeat, Farm, decide, effective_last_seen, last_seen, is_supervised, tick,
}
use wavvon_server.Farm.Monitor.Laws.{supervised, decision, change, UniqueHubs, hubs-tick}
use wavvon_server.Farm.Monitor.Bounds.{ticks, heartbeats-tick, UniqueHubs-supervised}
use wavvon_server.Base.{All}
use wavvon_server.Farm.Heartbeats.{
  has_pubkey, claimed_row, claim, upsert_heartbeat, reset_row, record_heartbeat, admit,
  receive_heartbeat,
}

-- A hub that was heard of less than 180 seconds ago is healthy.
decide-healthy :
    (seen attempts now : ℕ) (last : Option ℕ)
    → now < seen + 180
    → decide seen attempts last now ≡ Decision.healthy
unfolding decide
decide-healthy seen attempts now last h = ground arith

effective_last_seen-upsert :
    (pk : String) (at : ℕ) (beats : List Heartbeat) (h : HubRow)
    → has_pubkey pk h ≡ true
    → effective_last_seen (upsert_heartbeat pk at beats) h ≡ at
unfolding effective_last_seen last_seen
effective_last_seen-upsert pk at beats h e = elim (Option-cases h.hub_pubkey) [
  | inl k ↦ absurd (ground arith)
  | inr (q, k) ↦ ground (arith, eq_iff q pk, eq_iff pk q)
]

-- What supervision makes of a row whose hub has just reported.
supervised-upsert :
    (pk : String) (at now : ℕ) (beats : List Heartbeat) (h : HubRow)
    → has_pubkey pk h ≡ true
    → now < at + 180
    → supervised now (upsert_heartbeat pk at beats) h ≡ h
supervised-upsert pk at now beats h e l = ground (
  arith,
  effective_last_seen-upsert pk at beats h e,
  decide-healthy at h.restart_attempts now h.last_restart_at l,
)

has_pubkey-change :
    (pk : String) (now : ℕ) (d : Decision) (h : HubRow)
    → has_pubkey pk (change now d h) ≡ has_pubkey pk h
has_pubkey-change pk now Decision.healthy h = refl
has_pubkey-change pk now Decision.backoff h = refl
has_pubkey-change pk now Decision.restart h = refl
has_pubkey-change pk now Decision.give_up h = refl

has_pubkey-supervised :
    (pk : String) (now : ℕ) (beats : List Heartbeat) (h : HubRow)
    → has_pubkey pk (supervised now beats h) ≡ has_pubkey pk h
has_pubkey-supervised pk now beats h = elim (Bool-cases (is_supervised h)) [
  | inl e ↦ rw e (has_pubkey-change pk now (decision now beats h) h)
  | inr e ↦ rw e refl
]

retain-supervised :
    (pk : String) (at now : ℕ) (beats : List Heartbeat) (rows : List HubRow)
    → now < at + 180
    → retain (has_pubkey pk) (map (supervised now (upsert_heartbeat pk at beats)) rows)
      ≡ retain (has_pubkey pk) rows
retain-supervised pk at now beats [] l = refl
retain-supervised pk at now beats (h ∷ rows) l = elim (Bool-cases (has_pubkey pk h)) [
  | inl e ↦
      rw (supervised-upsert pk at now beats h e l)
        (ground (arith, retain-supervised pk at now beats rows l))
  | inr e ↦ ground (
    arith,
    has_pubkey-supervised pk now (upsert_heartbeat pk at beats) h,
    retain-supervised pk at now beats rows l,
  )
]

any-reset :
    (pk : String) (rows : List HubRow)
    → any (λ h. has_pubkey pk h && ltb 0 h.restart_attempts) (map (reset_row pk) rows) ≡ false
any-reset pk [] = refl
any-reset pk (h ∷ rows) = elim (Bool-cases (has_pubkey pk h && ltb 0 h.restart_attempts)) [
  | inl e ↦ ground (arith, any-reset pk rows)
  | inr e ↦ ground (arith, any-reset pk rows)
]

receive_heartbeat-ok :
    (pk : String) (hub_id : Option String) (at : ℕ) (f : Farm)
    → (receive_heartbeat (record { hub_pubkey = some pk; hub_id = hub_id }) at f).1 ≡ ok tt
    → (receive_heartbeat (record { hub_pubkey = some pk; hub_id = hub_id }) at f).0
      ≡ record_heartbeat pk at (claim pk hub_id f)
unfolding receive_heartbeat admit
receive_heartbeat-ok pk hub_id at f h = ground arith

-- A change of the rows that keeps their ids.
UniqueHubs-map :
    (g : HubRow → HubRow)
    → ((h : HubRow) → (g h).id ≡ h.id)
    → (rows : List HubRow) → UniqueHubs rows
    → UniqueHubs (map g rows)
UniqueHubs-map g same [] u = tt
UniqueHubs-map g same (h ∷ rows) u = (absent rows u.0, UniqueHubs-map g same rows u.1)
  where
    absent :
        (rows : List HubRow)
        → any (λ r. str_eq r.id h.id) rows ≡ false
        → any (λ r. str_eq r.id (g h).id) (map g rows) ≡ false
    absent [] e = refl
    absent (r ∷ rows) e = ground (arith, same r, same h, absent rows)

claimed_row-id : (pk id : String) (h : HubRow) → (claimed_row pk id h).id ≡ h.id
claimed_row-id pk id h = ground arith

reset_row-id : (pk : String) (h : HubRow) → (reset_row pk h).id ≡ h.id
reset_row-id pk h = ground arith

UniqueHubs-claim :
    (pk : String) (o : Option String) (f : Farm)
    → UniqueHubs f.hubs
    → UniqueHubs (claim pk o f).hubs
unfolding claim
UniqueHubs-claim pk none f u = u
UniqueHubs-claim pk (some id) f u = elim (Bool-cases (any (has_pubkey pk) f.hubs)) [
  | inl e ↦ rw (e, claim) u
  | inr e ↦ rw (e, claim) (UniqueHubs-map (claimed_row pk id) (claimed_row-id pk id) f.hubs u)
]

-- A tick within 180 seconds of the report.
tick-spares :
    (pk : String) (at now : ℕ) (beats : List Heartbeat) (f : Farm)
    → UniqueHubs f.hubs
    → f.heartbeats ≡ upsert_heartbeat pk at beats
    → now < at + 180
    → retain (has_pubkey pk) (tick now f).hubs ≡ retain (has_pubkey pk) f.hubs
tick-spares pk at now beats f u e l =
    ap (retain (has_pubkey pk)) (hubs-tick now f u)
    ∙ ap (λ bs. retain (has_pubkey pk) (map (supervised now bs) f.hubs)) e
    ∙ retain-supervised pk at now beats f.hubs l

ticks-spares :
    (pk : String) (at : ℕ) (beats : List Heartbeat) (ts : List ℕ) (f : Farm)
    → UniqueHubs f.hubs
    → f.heartbeats ≡ upsert_heartbeat pk at beats
    → All (λ now. now < at + 180) ts
    → retain (has_pubkey pk) (ticks ts f).hubs ≡ retain (has_pubkey pk) f.hubs
unfolding ticks
ticks-spares pk at beats [] f u e l = refl
ticks-spares pk at beats (now ∷ ts) f u e l =
    ticks-spares pk at beats ts (tick now f)
      (rw (hubs-tick now f u) (UniqueHubs-supervised now f.heartbeats f.hubs u))
      (heartbeats-tick now f ∙ e) l.1
    ∙ tick-spares pk at now beats f u e l.0

-- A heartbeat that is accepted gives the hub a clean slate of restarts, and however often
-- supervision runs in the 180 seconds that follow, while no other hub reports, it leaves the hub's
-- row alone, where the ids of the hubs are unique.
pub receive_heartbeat-spares :
    (pk : String) (hub_id : Option String) (at : ℕ) (ts : List ℕ) (f : Farm)
    → UniqueHubs f.hubs
    → (receive_heartbeat (record { hub_pubkey = some pk; hub_id = hub_id }) at f).1 ≡ ok tt
    → All (λ now. now < at + 180) ts
    → let d : Farm =
        (receive_heartbeat (record { hub_pubkey = some pk; hub_id = hub_id }) at f).0 in
      (any (λ h. has_pubkey pk h && ltb 0 h.restart_attempts) d.hubs ≡ false)
      × (retain (has_pubkey pk) (ticks ts d).hubs ≡ retain (has_pubkey pk) d.hubs)
unfolding record_heartbeat
receive_heartbeat-spares pk hub_id at ts f u done l =
    let c : Farm = claim pk hub_id f in
    rw (receive_heartbeat-ok pk hub_id at f done) (
      any-reset pk c.hubs,
      ticks-spares pk at c.heartbeats ts (record_heartbeat pk at c)
          (UniqueHubs-map (reset_row pk) (reset_row-id pk) c.hubs (UniqueHubs-claim pk hub_id f u))
          refl l,
    )
