-- ===== src/Hub/BanEvasion.antt =====
-- crates/hub/src/ban_evasion.rs: where identities were last seen, the addresses that a ban flags, and
-- the match of a newcomer. The keyed hash of an address is a text; `now` is the clock's reading.
pub mod Laws
mod Examples
use wavvon_server.Base.{
  ℕ, ◌+◌, ◌*◌, String, Bool, true, false, not, ◌&&◌, List, [], ◌∷◌, map, ◌++◌, Option, none, some,
  ℤ, pos, lt_ℤ, min_ℤ, str_eq, ltb, any, retain, if◌then◌else◌,
}
use wavvon_server.Hub.Db.{Db, IpSighting, BanIpFlag}

abbrev pub sighting_ttl_secs : ℕ
sighting_ttl_secs = 7 * 24 * 3600

abbrev pub flag_ttl_secs : ℕ
flag_ttl_secs = 30 * 24 * 3600

unfoldable pub flag_until : Option ℤ → ℕ → ℤ
flag_until none now = pos (now + flag_ttl_secs)
flag_until (some end) now = min_ℤ end (pos (now + flag_ttl_secs))

-- `ON CONFLICT (ip_hash, banned_pubkey) DO UPDATE`: the new rows displace those with their key.
unfoldable pub upsert_flags : List BanIpFlag → List BanIpFlag → List BanIpFlag
upsert_flags new old =
    new
    ++ retain
        (λ f.
          not (any (λ n. str_eq n.ip_hash f.ip_hash && str_eq n.banned_pubkey f.banned_pubkey) new))
        old

-- The addresses that the banned identity was seen from within the window.
unfoldable pub recent_sightings : String → ℕ → List IpSighting → List IpSighting
recent_sightings banned now rows =
    retain (λ s. str_eq s.public_key banned && ltb now (s.seen_at + sighting_ttl_secs)) rows

unfoldable pub flag_banned : String → Option ℤ → ℕ → Db → Db
unfolding flag_until recent_sightings upsert_flags
flag_banned banned ban_expires_at now db = record db {
  ban_ip_flags =
      upsert_flags
        (map
          (λ s. record {
            ip_hash = s.ip_hash;
            banned_pubkey = s.public_key;
            expires_at = flag_until ban_expires_at now;
          })
          (recent_sightings banned now db.ip_sightings))
        db.ban_ip_flags;
}

unfoldable pub unflag : String → Db → Db
unflag banned db = record db {
  ban_ip_flags = retain (λ f. not (str_eq f.banned_pubkey banned)) db.ban_ip_flags;
}

-- `INSERT INTO ip_sightings … ON CONFLICT (public_key) DO UPDATE`
unfoldable pub record_sighting : String → String → ℕ → Db → Db
record_sighting public_key ip_hash now db = record db {
  ip_sightings =
      record { public_key = public_key; ip_hash = ip_hash; seen_at = now }
      ∷ retain (λ s. not (str_eq s.public_key public_key)) db.ip_sightings;
}

abbrev pub is_match : String → String → ℕ → BanIpFlag → Bool
is_match ip_hash newcomer now f =
    str_eq f.ip_hash ip_hash
    && (not (str_eq f.banned_pubkey newcomer) && lt_ℤ (pos now) f.expires_at)

-- `ORDER BY expires_at DESC LIMIT 1`; of rows with the same end, which SQL does not order, the first.
unfoldable pub latest : List BanIpFlag → Option BanIpFlag
latest [] = none
latest (f ∷ fs) = elim (latest fs) [
  | none ↦ some f
  | some g ↦ if lt_ℤ f.expires_at g.expires_at then some g else some f
]

unfoldable pub matching_ban : String → String → ℕ → Db → Option String
unfolding latest
matching_ban ip_hash newcomer now db =
    elim (latest (retain (is_match ip_hash newcomer now) db.ban_ip_flags)) [
      | none ↦ none
      | some f ↦ some f.banned_pubkey
    ]

-- The two statements: what is kept is what does not satisfy their `WHERE`.
unfoldable pub sweep : ℕ → Db → Db
sweep now db = record db {
  ip_sightings = retain (λ s. ltb now (s.seen_at + sighting_ttl_secs)) db.ip_sightings;
  ban_ip_flags = retain (λ f. lt_ℤ (pos now) f.expires_at) db.ban_ip_flags;
}
