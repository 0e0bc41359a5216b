-- ===== src/Farm/Monitor/Laws.antt =====
-- What one tick does to each hub.
use wavvon_server.Base.{
  ℕ, ◌≡◌, refl, ◌∙◌, sym, ap, String, Bool, false, List, [], ◌∷◌, map, arith, any, retain, str_eq,
  eq_iff, str_eq_refl, if◌then◌else◌,
}
use wavvon_server.Farm.Monitor.{
  Decision, HubRow, Heartbeat, Farm, decide, effective_last_seen, is_supervised, update_hub,
  count_restart, disable, act, supervise, tick,
}

-- The change of a row for a decision.
abbrev pub change : ℕ → Decision → HubRow → HubRow
change now Decision.healthy r = r
change now Decision.backoff r = r
change now Decision.restart r = count_restart now r
change now Decision.give_up r = disable r

-- The decision on a row.
abbrev pub decision : ℕ → List Heartbeat → HubRow → Decision
decision now beats h = decide (effective_last_seen beats h) h.restart_attempts h.last_restart_at now

-- The specification of a tick, one hub at a time.
abbrev pub supervised : ℕ → List Heartbeat → HubRow → HubRow
supervised now beats h = if is_supervised h then change now (decision now beats h) h else h

-- `id` is the primary key of `hubs`.
abbrev pub UniqueHubs : List HubRow → Type 0
UniqueHubs [] = Unit
UniqueHubs (h ∷ hs) = (any (λ r. str_eq r.id h.id) hs ≡ false) × UniqueHubs hs

pub change-id : (now : ℕ) (d : Decision) (r : HubRow) → (change now d r).id ≡ r.id
change-id now Decision.healthy r = refl
change-id now Decision.backoff r = refl
change-id now Decision.restart r = refl
change-id now Decision.give_up r = refl

module _ (now : ℕ) (beats : List Heartbeat) where
  -- What the loop over `hs` does to a row.
  apply_all : List HubRow → HubRow → HubRow
  apply_all [] r = r
  apply_all (h ∷ hs) r =
      apply_all hs (if str_eq r.id h.id then change now (decision now beats h) r else r)

  map-same :
      (id : String) (rows : List HubRow) → map (λ r. if str_eq r.id id then r else r) rows ≡ rows
  map-same id [] = refl
  map-same id (r ∷ rows) = ground (arith, map-same id rows)

  hubs-act :
      (id : String) (d : Decision) (f : Farm)
      → (act now id d f).hubs ≡ map (λ r. if str_eq r.id id then change now d r else r) f.hubs
  unfolding act update_hub
  hubs-act id Decision.healthy f = sym (map-same id f.hubs)
  hubs-act id Decision.backoff f = sym (map-same id f.hubs)
  hubs-act id Decision.restart f = refl
  hubs-act id Decision.give_up f = refl

  map-map :
      (g k : HubRow → HubRow) (rows : List HubRow) → map g (map k rows) ≡ map (λ r. g (k r)) rows
  map-map g k [] = refl
  map-map g k (r ∷ rows) = rw (map-map g k rows)

  map-id : (rows : List HubRow) → rows ≡ map (λ r. r) rows
  map-id [] = refl
  map-id (r ∷ rows) = ap (λ t. r ∷ t) (map-id rows)

  hubs-supervise :
      (hs : List HubRow) (f : Farm) → (supervise now beats hs f).hubs ≡ map (apply_all hs) f.hubs
  unfolding supervise apply_all
  hubs-supervise [] f = map-id f.hubs
  hubs-supervise (h ∷ hs) f =
      hubs-supervise hs (act now h.id (decision now beats h) f)
      ∙ ap (map (apply_all hs)) (hubs-act h.id (decision now beats h) f)
      ∙ map-map (apply_all hs)
          (λ r. if str_eq r.id h.id then change now (decision now beats h) r else r) f.hubs

  apply_all-absent :
      (p : HubRow → Bool) (hs : List HubRow) (r : HubRow)
      → any (λ h. str_eq h.id r.id) hs ≡ false
      → apply_all (retain p hs) r ≡ r
  unfolding apply_all
  apply_all-absent p [] r h = refl
  apply_all-absent p (k ∷ hs) r h =
      ground (arith, eq_iff r.id k.id, eq_iff k.id r.id, apply_all-absent p hs r)

  -- The head of the fetched rows does not touch the rest.
  map-apply_all :
      (p : HubRow → Bool) (h : HubRow) (hs rows : List HubRow)
      → any (λ r. str_eq r.id h.id) rows ≡ false
      → map (apply_all (retain p (h ∷ hs))) rows ≡ map (apply_all (retain p hs)) rows
  unfolding apply_all
  map-apply_all p h hs [] e = refl
  map-apply_all p h hs (r ∷ rows) e = ground (arith, map-apply_all p h hs rows)

  apply_all-head :
      (h : HubRow) (hs : List HubRow)
      → any (λ r. str_eq r.id h.id) hs ≡ false
      → apply_all (retain is_supervised (h ∷ hs)) h ≡ supervised now beats h
  unfolding apply_all
  apply_all-head h hs e = ground (
    arith,
    str_eq_refl h.id,
    change-id now (decision now beats h) h,
    apply_all-absent is_supervised hs h,
    apply_all-absent is_supervised hs (change now (decision now beats h) h),
  )

  map-supervised :
      (hs : List HubRow)
      → UniqueHubs hs
      → map (apply_all (retain is_supervised hs)) hs ≡ map (supervised now beats) hs
  map-supervised [] u = refl
  map-supervised (h ∷ hs) u =
      rw (apply_all-head h hs u.0, map-apply_all is_supervised h hs hs u.0, map-supervised hs u.1)

-- A tick treats each hub by itself, by the rows as they were before it: where the ids are unique,
-- the table is afterwards the specification of one hub, at each of its rows.
pub hubs-tick :
    (now : ℕ) (f : Farm)
    → UniqueHubs f.hubs
    → (tick now f).hubs ≡ map (supervised now f.heartbeats) f.hubs
unfolding tick
hubs-tick now f u =
    hubs-supervise now f.heartbeats (retain is_supervised f.hubs) f
    ∙ map-supervised now f.heartbeats f.hubs u
