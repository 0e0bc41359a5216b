-- ===== src/Hub/BanEvasion/Laws.antt =====
-- About the flags of a ban, and sweeping.
use wavvon_server.Base.{
  ℕ, ◌+◌, ◌*◌, ◌≤◌, ◌<◌, String, Bool, true, false, not, ◌&&◌, ◌≡◌, refl, ◌∙◌, ap, List, [], ◌∷◌,
  map, Option, none, some, inl, inr, ℤ, pos, negsuc, lt_ℤ, arith, str_eq, str_eq_refl, ltb, retain,
  Option-cases, Bool-cases,
}
use wavvon_server.Hub.Db.{Db, IpSighting, BanIpFlag}
use wavvon_server.Hub.BanEvasion.{
  sighting_ttl_secs, flag_until, upsert_flags, recent_sightings, flag_banned, record_sighting,
  is_match, latest, matching_ban, sweep,
}

retain-retain {ℓ} :
    {A : Type ℓ} (p q : A → Bool) (xs : List A)
    → ((x : A) → p x ≡ true → q x ≡ true)
    → retain p (retain q xs) ≡ retain p xs
retain-retain p q [] h = refl
retain-retain p q (x ∷ xs) h = ground (arith, h x, retain-retain p q xs)

lasts_longer : (t now : ℕ) (e : ℤ) → t ≤ now → lt_ℤ (pos now) e ≡ true → lt_ℤ (pos t) e ≡ true
lasts_longer t now (pos n) l h = ground arith
lasts_longer t now (negsuc n) l h = ground arith

-- A sweep is not seen: at its time and later, newcomers match what they matched before, and bans
-- find the same sightings.
pub matching_ban-sweep :
    (t now : ℕ) (db : Db) (ip_hash key : String)
    → t ≤ now
    → (matching_ban ip_hash key now (sweep t db) ≡ matching_ban ip_hash key now db)
      × (recent_sightings key now (sweep t db).ip_sightings
          ≡ recent_sightings key now db.ip_sightings)
unfolding matching_ban sweep recent_sightings
matching_ban-sweep t now db ip_hash key l = (
  ap (λ fs. elim (latest fs) [ none ↦ none | some f ↦ some f.banned_pubkey ])
      (retain-retain (is_match ip_hash key now) (λ f. lt_ℤ (pos t) f.expires_at) db.ban_ip_flags
        (λ f e. lasts_longer t now f.expires_at l (ground arith))),
  retain-retain (λ s. str_eq s.public_key key && ltb now (s.seen_at + sighting_ttl_secs))
      (λ s. ltb t (s.seen_at + sighting_ttl_secs)) db.ip_sightings (λ s e. ground arith),
)

latest-cons : (f : BanIpFlag) (fs : List BanIpFlag) → (g : BanIpFlag) × (latest (f ∷ fs) ≡ some g)
unfolding latest
latest-cons f fs = elim (Option-cases (latest fs)) [
  | inl e ↦ (f, rw (e, latest) refl)
  | inr (g, e) ↦ elim (Bool-cases (lt_ℤ f.expires_at g.expires_at)) [
    | inl k ↦ (g, rw (e, k, latest) refl)
    | inr k ↦ (f, rw (e, k, latest) refl)
  ]
]

-- The sighting stands first.
recent_sightings-record_sighting :
    (key ip_hash : String) (seen now : ℕ) (db : Db)
    → now < seen + sighting_ttl_secs
    → recent_sightings key now (record_sighting key ip_hash seen db).ip_sightings
      ≡ record { public_key = key; ip_hash = ip_hash; seen_at = seen }
        ∷ recent_sightings key now (retain (λ s. not (str_eq s.public_key key)) db.ip_sightings)
unfolding recent_sightings record_sighting
recent_sightings-record_sighting key ip_hash seen now db l = ground (arith, str_eq_refl key)

is_match-flag :
    (ip_hash key newcomer : String) (now : ℕ) (e : ℤ)
    → str_eq key newcomer ≡ false
    → lt_ℤ (pos now) e ≡ true
    → is_match ip_hash newcomer now
        (record { ip_hash = ip_hash; banned_pubkey = key; expires_at = e })
      ≡ true
is_match-flag ip_hash key newcomer now e h l = ground (arith, str_eq_refl ip_hash)

retain-first :
    (p : BanIpFlag → Bool) (f : BanIpFlag) (fs : List BanIpFlag)
    → p f ≡ true
    → retain p (f ∷ fs) ≡ f ∷ retain p fs
retain-first p f fs h = rw h refl

matching_ban-first :
    (ip_hash newcomer : String) (now : ℕ) (db : Db) (f : BanIpFlag) (fs : List BanIpFlag)
    → db.ban_ip_flags ≡ f ∷ fs
    → is_match ip_hash newcomer now f ≡ true
    → (m : String) × (matching_ban ip_hash newcomer now db ≡ some m)
unfolding matching_ban
matching_ban-first ip_hash newcomer now db f fs e h =
    let p : BanIpFlag → Bool = is_match ip_hash newcomer now in
    let (g, k) = latest-cons f (retain p fs) in
    (
      g.banned_pubkey,
      ap (λ o. elim o [ none ↦ none | some x ↦ some x.banned_pubkey ])
          (ap latest (ap (retain p) e ∙ retain-first p f fs h) ∙ k),
    )

-- Within the 30 days, and before the end of the ban.
abbrev pub IsFlagging : Option ℤ → ℕ → ℕ → Type 0
IsFlagging none at now = now < at + 30 * 24 * 3600
IsFlagging (some end) at now = (now < at + 30 * 24 * 3600) × (lt_ℤ (pos now) end ≡ true)

flag_until-lasts :
    (end : Option ℤ) (at now : ℕ)
    → IsFlagging end at now
    → lt_ℤ (pos now) (flag_until end at) ≡ true
unfolding flag_until
flag_until-lasts none at now h = ground arith
flag_until-lasts (some (pos e)) at now h = ground arith
flag_until-lasts (some (negsuc e)) at now h = ground arith

-- Where an identity was seen at an address within the week before it is banned, somebody else who
-- arrives from that address is matched with a ban, as long as 30 days have not passed since and the
-- ban has not ended.
pub matching_ban-flag_banned :
    (ip_hash key newcomer : String) (seen at now : ℕ) (end : Option ℤ) (db : Db)
    → at < seen + 7 * 24 * 3600
    → str_eq key newcomer ≡ false
    → IsFlagging end at now
    → (m : String) × (matching_ban ip_hash newcomer now
          (flag_banned key end at (record_sighting key ip_hash seen db))
        ≡ some m)
unfolding flag_banned upsert_flags record_sighting
matching_ban-flag_banned ip_hash key newcomer seen at now end db l h k =
    let flag : IpSighting → BanIpFlag = λ s. record {
      ip_hash = s.ip_hash;
      banned_pubkey = s.public_key;
      expires_at = flag_until end at;
    } in
    matching_ban-first ip_hash newcomer now
      (flag_banned key end at (record_sighting key ip_hash seen db))
      (record { ip_hash = ip_hash; banned_pubkey = key; expires_at = flag_until end at }) _
      (ap (λ rows. upsert_flags (map flag rows) db.ban_ip_flags)
        (recent_sightings-record_sighting key ip_hash seen at db l))
      (is_match-flag ip_hash key newcomer now (flag_until end at) h (flag_until-lasts end at now k))
