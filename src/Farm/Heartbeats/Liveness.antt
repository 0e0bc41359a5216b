-- ===== src/Farm/Heartbeats/Liveness.antt =====
-- About the restart of hubs that fall silent.
use mathlib.Core.Path.{subst}
use mathlib.Core.Option.{some-injective}
use wavvon_server.Base.{
  ℕ, ◌+◌, ◌≤◌, ◌<◌, String, Bool, true, false, ◌&&◌, ◌≡◌, refl, ◌∙◌, sym, List, [], ◌∷◌, some,
  arith, str_eq, str_eq_refl, find, retain, contains, Bool-cases, inl, inr,
}
use wavvon_server.Farm.Monitor.{
  Decision, HubRow, Heartbeat, Farm, max_attempts, offline_threshold_secs, effective_last_seen,
  is_supervised, act, supervise, tick,
}
use wavvon_server.Farm.Monitor.Laws.{decision}
use wavvon_server.Farm.Monitor.Bounds.{IsDue, decide-restart}

restarts-act_kept :
    (now : ℕ) (id k : String) (d : Decision) (f : Farm)
    → contains f.restarts k ≡ true
    → contains (act now id d f).restarts k ≡ true
unfolding act
restarts-act_kept now id k Decision.healthy f h = h
restarts-act_kept now id k Decision.backoff f h = h
restarts-act_kept now id k Decision.restart f h = ground arith
restarts-act_kept now id k Decision.give_up f h = h

restarts-supervise_kept :
    (now : ℕ) (beats : List Heartbeat) (hs : List HubRow) (k : String) (f : Farm)
    → contains f.restarts k ≡ true
    → contains (supervise now beats hs f).restarts k ≡ true
unfolding supervise
restarts-supervise_kept now beats [] k f h = h
restarts-supervise_kept now beats (r ∷ hs) k f h =
    restarts-supervise_kept now beats hs k (act now r.id (decision now beats r) f)
      (restarts-act_kept now r.id k (decision now beats r) f h)

restarts-act_restart :
    (now : ℕ) (id : String) (d : Decision) (f : Farm)
    → d ≡ Decision.restart
    → contains (act now id d f).restarts id ≡ true
unfolding act
restarts-act_restart now id Decision.healthy f h = cc
restarts-act_restart now id Decision.backoff f h = cc
restarts-act_restart now id Decision.restart f h = ground (arith, str_eq_refl id)
restarts-act_restart now id Decision.give_up f h = cc

-- The loop reaches every row that it was given.
restarts-supervise :
    (now : ℕ) (beats : List Heartbeat) (p : HubRow → Bool) (hs : List HubRow) (h : HubRow)
    (f : Farm)
    → find p hs ≡ some h
    → decision now beats h ≡ Decision.restart
    → contains (supervise now beats hs f).restarts h.id ≡ true
unfolding supervise
restarts-supervise now beats p [] h f e d = cc
restarts-supervise now beats p (r ∷ hs) h f e d = elim (Bool-cases (p r)) [
  | inl k ↦
      let same : r ≡ h = some-injective r h (sym (head r hs k) ∙ e) in
      restarts-supervise_kept now beats hs h.id (act now r.id (decision now beats r) f) (
        subst (λ q. contains (act now q.id (decision now beats q) f).restarts h.id ≡ true)
          (sym same) (restarts-act_restart now h.id (decision now beats h) f d))
  | inr k ↦
      restarts-supervise now beats p hs h (act now r.id (decision now beats r) f)
        (sym (tail r hs k) ∙ e) d
]
  where
    head : (r : HubRow) (hs : List HubRow) → p r ≡ true → find p (r ∷ hs) ≡ some r
    head r hs k = rw k refl

    tail : (r : HubRow) (hs : List HubRow) → p r ≡ false → find p (r ∷ hs) ≡ find p hs
    tail r hs k = rw k refl

find-retain {ℓ} :
    {A : Type ℓ} (p q : A → Bool) (xs : List A) (x : A)
    → find p xs ≡ some x
    → ((y : A) → p y ≡ true → q y ≡ true)
    → find p (retain q xs) ≡ some x
find-retain p q [] x e h = cc
find-retain p q (y ∷ xs) x e h = ground (arith, h y, find-retain p q xs x)

-- A supervised hub that has been silent for 180 seconds, has attempts left and whose last restart
-- is at least the backoff ago is restarted by the next tick.
pub tick-restarts_silent :
    (now : ℕ) (f : Farm) (id : String) (h : HubRow)
    → find (λ r. str_eq r.id id && is_supervised r) f.hubs ≡ some h
    → effective_last_seen f.heartbeats h + offline_threshold_secs ≤ now
    → h.restart_attempts < max_attempts
    → IsDue h.restart_attempts h.last_restart_at now
    → contains (tick now f).restarts h.id ≡ true
unfolding tick
tick-restarts_silent now f id h found silent more due =
    restarts-supervise now f.heartbeats (λ r. str_eq r.id id && is_supervised r)
      (retain is_supervised f.hubs) h f
      (find-retain (λ r. str_eq r.id id && is_supervised r) is_supervised f.hubs h found
        (λ y e. ground arith))
      ((decide-restart (effective_last_seen f.heartbeats h) h.restart_attempts now
          h.last_restart_at).1
        (omega arith, more, due))
