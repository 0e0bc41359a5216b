-- ===== src/Hub/Moderation/Policy.antt =====
-- The admission policy of the federated ban lists, and how sanctions expire.
use wavvon_server.Base.{
  ℕ, ◌≤◌, ◌≡◌, refl, ap, String, Bool, true, false, find, eq_iff, Bool-cases, not, ◌&&◌, ◌||◌, List,
  [], ◌∷◌, none, some, arith, any, str_eq, Option-cases, inl, inr,
}
use wavvon_server.Hub.Db.{Db, Sanction, FederatedBan, BanSource, BanOverride}
use wavvon_server.Hub.Moderation.{
  is_active, is_sanctioned, is_banned, is_muted, issued_by, is_hard_rejected, is_legacy_rejected,
  override_type, is_listed, is_denied_by_federated_policy,
}

-- The source is the issuer of the list that the ban came with.
abbrev pub is_source : FederatedBan → BanSource → Bool
is_source b s = elim s.issuer_pubkey [ none ↦ false | some k ↦ str_eq k b.source_hub_pubkey ]

-- A ban that the hub enforces: its source rejects hard under one subscription at least, or is
-- none that the hub subscribes to.
abbrev pub is_enforced : List BanSource → FederatedBan → Bool
is_enforced sources b =
    any (λ s. is_source b s && str_eq s.policy "hard-reject") sources
    || not (any (is_source b) sources)

-- The hub has an override of that type for the key.
abbrev pub is_overridden : Db → String → String → Bool
is_overridden db key type =
    any (λ o. str_eq o.target_pubkey key && str_eq o.override_type type) db.federated_ban_overrides

-- Some ban of the key is enforced.
abbrev pub is_rejected : Db → String → Bool
is_rejected db key =
    any (λ b. str_eq b.target_master_pubkey key && is_enforced db.federated_ban_sources b)
      db.federated_bans

-- `target_pubkey` is the primary key of the overrides.
abbrev pub UniqueOverrides : List BanOverride → Type 0
UniqueOverrides [] = Unit
UniqueOverrides (o ∷ os) =
    (any (λ p. str_eq p.target_pubkey o.target_pubkey) os ≡ false) × UniqueOverrides os

any-target :
    (key : String) (b : FederatedBan) (sources : List BanSource)
    → any
        (λ s. is_source b s && (str_eq b.target_master_pubkey key && str_eq s.policy "hard-reject"))
        sources
      ≡ (str_eq b.target_master_pubkey key
          && any (λ s. is_source b s && str_eq s.policy "hard-reject") sources)
any-target key b [] = ground arith
any-target key b (s ∷ sources) = ground (arith, any-target key b sources)

any-enforced :
    (key : String) (sources : List BanSource) (bans : List FederatedBan)
    → (any
          (λ b.
            any
              (λ s.
                is_source b s
                && (str_eq b.target_master_pubkey key && str_eq s.policy "hard-reject"))
              sources)
          bans
        || any
            (λ b. str_eq b.target_master_pubkey key && not (any (λ s. is_source b s) sources))
            bans)
      ≡ any (λ b. str_eq b.target_master_pubkey key && is_enforced sources b) bans
any-enforced key sources [] = refl
any-enforced key sources (b ∷ bans) =
    ground (arith, any-target key b sources, any-enforced key sources bans)

is_listed_lem :
    (db : Db) (key : String)
    → is_listed db key
      ≡ any
          (λ b. str_eq b.target_master_pubkey key && is_enforced db.federated_ban_sources b)
          db.federated_bans
unfolding is_listed is_hard_rejected is_legacy_rejected issued_by
is_listed_lem db key = ground (arith, any-enforced key db.federated_ban_sources db.federated_bans)

-- Whether there is an override of a type, of the rows behind one with another key.
none_other :
    (key type : String) (os : List BanOverride)
    → any (λ p. str_eq p.target_pubkey key) os ≡ false
    → any (λ o. str_eq o.target_pubkey key && str_eq o.override_type type) os ≡ false
none_other key type [] h = refl
none_other key type (o ∷ os) h = ground (arith, none_other key type os)

-- The type of the first override is that of every one.
any-override :
    (key type : String) (os : List BanOverride)
    → UniqueOverrides os
    → any (λ o. str_eq o.target_pubkey key && str_eq o.override_type type) os
      ≡ elim (find (λ o. str_eq o.target_pubkey key) os) [
        | none ↦ false
        | some o ↦ str_eq o.override_type type
      ]
any-override key type [] u = refl
any-override key type (o ∷ os) u = elim (Bool-cases (str_eq o.target_pubkey key)) [
  | inl e ↦ ground (arith, eq_iff o.target_pubkey key, none_other key type os)
  | inr e ↦ ground (arith, any-override key type os)
]

not_both : (type : String) → str_eq type "whitelist" ≡ true → str_eq type "blacklist" ≡ false
not_both type h = ap (λ t. str_eq t "blacklist") ((eq_iff type "whitelist").0 h)

-- Where no key has two overrides, a key is denied exactly when the hub blacklists it, or does not
-- whitelist it and some ban of it comes from a source that the hub rejects hard on, or that the hub
-- does not subscribe to.
pub is_denied_by_federated_policy_lem :
    (db : Db) (key : String)
    → UniqueOverrides db.federated_ban_overrides
    → is_denied_by_federated_policy db key ≡ (
        is_overridden db key "blacklist"
        || (not (is_overridden db key "whitelist") && is_rejected db key))
unfolding is_denied_by_federated_policy override_type
is_denied_by_federated_policy_lem db key u =
    elim (Option-cases (find (λ o. str_eq o.target_pubkey key) db.federated_ban_overrides)) [
      | inl e ↦ ground (
        arith,
        is_listed_lem db key,
        any-override key "blacklist" db.federated_ban_overrides u,
        any-override key "whitelist" db.federated_ban_overrides u,
      )
      | inr (o, e) ↦ ground (
        arith,
        is_listed_lem db key,
        any-override key "blacklist" db.federated_ban_overrides u,
        any-override key "whitelist" db.federated_ban_overrides u,
        not_both o.override_type,
      )
    ]

is_sanctioned-earlier :
    (u : String) (now later : ℕ) (rows : List Sanction)
    → now ≤ later
    → is_sanctioned rows u later ≡ true
    → is_sanctioned rows u now ≡ true
unfolding is_sanctioned is_active
is_sanctioned-earlier u now later [] h e = cc
is_sanctioned-earlier u now later (s ∷ rows) h e = elim (Option-cases s.expires_at) [
  | inl k ↦ ground (arith, is_sanctioned-earlier u now later rows)
  | inr (t, k) ↦ ground (arith, is_sanctioned-earlier u now later rows)
]

-- A sanction that has run out stays out: whoever is banned, or muted, at one time was so at every
-- earlier time, by the same tables.
is_banned-earlier :
    (db : Db) (u : String) (now later : ℕ)
    → now ≤ later
    → (is_banned db u later ≡ true → is_banned db u now ≡ true)
      × (is_muted db u later ≡ true → is_muted db u now ≡ true)
unfolding is_banned is_muted
is_banned-earlier db u now later h =
    (is_sanctioned-earlier u now later db.bans h, is_sanctioned-earlier u now later db.mutes h)
