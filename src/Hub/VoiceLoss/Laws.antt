-- ===== src/Hub/VoiceLoss/Laws.antt =====
-- About the counters that the relay reads.
use mathlib.Core.List.{Perm, Permᴰ}
use mathlib.Core.Logic.{∥∥₁_elim}
use wavvon_server.Base.{
  ℕ, ◌+◌, ◌<◌, ◌^◌, min, max, ◌≡◌, refl, ◌∙◌, ap, List, ◌++◌, Option, none, some, length, arith,
  leb, true,
}
use wavvon_server.Identity.Wire.Encode.{Bytes}
use wavvon_server.Identity.Voice.{header, be_u32, be_u64, voice_packet_seal}
use wavvon_server.Identity.Voice.Laws.{from_be-be_u64}
use wavvon_server.Hub.VoiceLoss.{SenderLoss, read_ctr, track, track_all, loss}

long : (n : ℕ) → leb 12 (16 + n) ≡ true
long n = ground arith

read_ctr-header :
    (key_id ctr ts : ℕ) (ct : Bytes)
    → ctr < 2 ^ 64
    → read_ctr (header key_id ctr ts ++ ct) ≡ some ctr
unfolding read_ctr header be_u64 be_u32
read_ctr-header key_id ctr ts ct h =
    ground (arith, long (length ct), ap some (from_be-be_u64 ctr h))

-- The relay reads, without a key, the counter that a packet was sealed with.
pub read_ctr-seal :
    (encrypt : Bytes → Bytes → Bytes → Bytes → Bytes)
    (decrypt : Bytes → Bytes → Bytes → Bytes → Option Bytes) (sender_key nonce_salt : Bytes)
    (key_id ctr ts : ℕ) (opus : Bytes)
    → ctr < 2 ^ 64
    → read_ctr (voice_packet_seal encrypt decrypt sender_key nonce_salt key_id ctr ts opus)
      ≡ some ctr
unfolding voice_packet_seal
read_ctr-seal encrypt decrypt sender_key nonce_salt key_id ctr ts opus h =
    read_ctr-header key_id ctr ts _ h

max_comm : (a b : ℕ) → max a b ≡ max b a
max_comm a b = omega arith

min_comm : (a b : ℕ) → min a b ≡ min b a
min_comm a b = omega arith

max_swap : (m a b : ℕ) → max (max m a) b ≡ max (max m b) a
max_swap m a b = omega arith

min_swap : (m a b : ℕ) → min (min m a) b ≡ min (min m b) a
min_swap m a b = omega arith

track_comm :
    (t : Option SenderLoss) (a b : ℕ) → track (some (track t a)) b ≡ track (some (track t b)) a
unfolding track
track_comm none a b = ground (arith, max_comm a b, min_comm a b)
track_comm (some p) a b = ground (arith, max_swap p.highest_ctr a b, min_swap p.first_ctr a b)

track_all-reordered :
    (t : Option SenderLoss) {xs ys : List ℕ} → Permᴰ xs ys → track_all t xs ≡ track_all t ys
unfolding track_all
track_all-reordered t Permᴰ.nil = refl
track_all-reordered t (Permᴰ.cons {a} {b} {l₁} e p) =
    ap (λ c. track_all (some (track t c)) l₁) e ∙ track_all-reordered (some (track t b)) p
track_all-reordered t (Permᴰ.swap {a} {b} {a'} {b'} {l} e f) =
    ap (λ s. track_all (some s) l)
      (track_comm t a b
        ∙ ap (λ c. track (some (track t c)) a) f
        ∙ ap (λ c. track (some (track t a')) c) e)
track_all-reordered t (Permᴰ.trans p q) = track_all-reordered t p ∙ track_all-reordered t q

-- The order in which packets arrive means nothing: the same counters in another order leave the
-- same tracker, and so the same loss.
pub track_all-perm :
    (t : Option SenderLoss) (xs ys : List ℕ)
    → Perm xs ys
    → (track_all t xs ≡ track_all t ys) × (loss (track_all t xs) ≡ loss (track_all t ys))
track_all-perm t xs ys p =
    let same : track_all t xs ≡ track_all t ys =
      ∥∥₁_elim p (tracker_set _ _) (track_all-reordered t) in
    (same, ap loss same)
  where
    tracker_set : IsSet (Option SenderLoss)
    tracker_set = hlevel
