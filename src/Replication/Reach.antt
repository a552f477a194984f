-- ===== src/Replication/Reach.antt =====
-- Which holders a chunk is fetched from.
use stardustfs.Prelude.{
  Text, Bytes, Bool, true, false, Option, none, some, List, [], ◌∷◌, ◌≡◌, ◌≢◌, ◌⊎◌, inl, inr, refl,
  arith, ap, Result, ok, err, ◌==◌, nat_eq, eq_iff, if◌then◌else◌, Bool-cases, ◌&&◌, ◌||◌,
}
use stardustfs.Network.{Reply, lost, reply, Run, pure}
use stardustfs.Replication.{Setup, first_data}
use stardustfs.Replication.Transfer.{
  Net, Holder, is_missing, relayed, direct_data, relay_fetch_of, holder_fetch,
}

is_missing_named : (t : Text) → t ≢ [] → is_missing t ≡ false
is_missing_named [] named = absurd (named refl)
is_missing_named (c ∷ t) named = refl

-- A call that gives the content or nothing.
abbrev IsFair : {W : Type 0} → Bytes → Result (Option Bytes) × W → Type 0
IsFair {W} content outcome =
    (o : Option Bytes) × (v : W) × (outcome ≡ (ok o, v)) × ((o ≡ none) ⊎ (o ≡ some content))

module _ {W : Type 0} (content : Bytes) where
  relayed-IsFair :
      (outcome : Result Bytes × W)
      → ((b : Bytes) → outcome.0 ≡ ok b → b ≡ content)
      → IsFair content (relayed outcome)
  relayed-IsFair (err e, w) honest = (none, w, refl, inl refl)
  relayed-IsFair (ok b, w) honest = (some b, w, refl, inr (ap some (honest b refl)))

  choice-IsFair :
      (b : Bool) (m : Run W (Option Bytes)) (w : W)
      → IsFair content (m w)
      → IsFair content ((if b then pure none else m) w)
  choice-IsFair true m w fair = (none, w, refl, inl refl)
  choice-IsFair false m w fair = fair

  if-IsFair :
      (b : Bool) (m n : Run W (Option Bytes)) (w : W)
      → IsFair content (m w)
      → IsFair content (n w)
      → IsFair content ((if b then m else n) w)
  if-IsFair true m n w left right = left
  if-IsFair false m n w left right = right

  direct_data-IsFair :
      (relay : Run W (Option Bytes)) (outcome : Reply (Option Bytes) × W)
      → ((w : W) → IsFair content (relay w))
      → ((b : Bytes) → outcome.0 ≡ reply 200 (some b) → b ≡ content)
      → IsFair content (direct_data relay outcome)
  direct_data-IsFair relay (lost, w) fair honest = fair w
  direct_data-IsFair relay (reply status none, w) fair honest = (none, w, ground arith, inl refl)
  direct_data-IsFair relay (reply status (some b), w) fair honest =
      elim (Bool-cases (status == 200)) [
        | inr bad ↦ (none, w, rw bad refl, inl refl)
        | inl fine ↦ (
          some b,
          w,
          rw fine refl,
          inr (ap some (honest b (ap (λ n. reply n (some b)) (ground (arith, eq_iff status 200))))),
        )
      ]

module _ {W : Type 0} (net : Net W) (token chunk : Text) (content : Bytes) where
  -- A holder that never answers with other bytes than the content.
  abbrev pub IsHonest : Holder → Type 0
  IsHonest h =
      ((w : W) (b : Bytes)
        → (net.direct_fetch h.connection_address chunk token w).0 ≡ reply 200 (some b)
        → b ≡ content)
      × ((w : W) (b : Bytes) → (net.relay_fetch h.device_id chunk w).0 ≡ ok b → b ≡ content)

  -- A holder that is not offline and always answers with the content: directly, or by the relay where
  -- it has no address or its address is not reached.
  pub data IsGiving (h : Holder) : Type 0 where
    directly :
        h.is_offline ≡ false
        → h.connection_address ≢ []
        → ((w : W)
            → (w' : W) × (net.direct_fetch h.connection_address chunk token w
                ≡ (reply 200 (some content), w')))
        → IsGiving h
    relayed_only :
        h.is_offline ≡ false
        → h.device_id ≢ []
        → h.connection_address ≡ []
        → ((w : W) → (w' : W) × (net.relay_fetch h.device_id chunk w ≡ (ok content, w')))
        → IsGiving h
    relayed_too :
        h.is_offline ≡ false
        → h.device_id ≢ []
        → ((w : W) → (w' : W) × (net.direct_fetch h.connection_address chunk token w ≡ (lost, w')))
        → ((w : W) → (w' : W) × (net.relay_fetch h.device_id chunk w ≡ (ok content, w')))
        → IsGiving h

  -- Some holder of the list gives the content, and those before it are honest.
  abbrev pub IsServed : List Holder → Type 0
  IsServed [] = ⊥
  IsServed (h ∷ holders) = IsGiving h ⊎ (IsHonest h × IsServed holders)

  relay_fetch_of-given :
      (h : Holder) (w w' : W)
      → h.device_id ≢ []
      → net.relay_fetch h.device_id chunk w ≡ (ok content, w')
      → relay_fetch_of net h.device_id chunk w ≡ (ok (some content), w')
  relay_fetch_of-given h w w' named given = rw (is_missing_named h.device_id named, given) refl

  holder_fetch-IsGiving :
      (h : Holder) (w : W)
      → IsGiving h
      → (w' : W) × (holder_fetch net h.device_id h.connection_address chunk token w
          ≡ (ok (some content), w'))
  unfolding holder_fetch
  holder_fetch-IsGiving h w (directly online named gives) =
      let (w', at) = gives w in
      (w', rw (holder_fetch, is_missing_named h.connection_address named, at) refl)
  holder_fetch-IsGiving h w (relayed_only online named unaddressed gives) =
      let (w', at) = gives w in
      let missing : is_missing h.connection_address ≡ true = rw unaddressed refl in
      (w', rw (holder_fetch, missing) (relay_fetch_of-given h w w' named at))
  holder_fetch-IsGiving h w (relayed_too online named unreached gives) =
      let (v, out) = unreached w in
      elim (Bool-cases (is_missing h.connection_address)) [
        | inl missing ↦
            let (w', at) = gives w in
            (w', rw (holder_fetch, missing) (relay_fetch_of-given h w w' named at))
        | inr addressed ↦
            let (w', at) = gives v in
            (w', rw (holder_fetch, addressed, out) (relay_fetch_of-given h v w' named at))
      ]

  holder_fetch-IsFair :
      (h : Holder) (w : W)
      → IsHonest h
      → IsFair content (holder_fetch net h.device_id h.connection_address chunk token w)
  unfolding holder_fetch
  holder_fetch-IsFair h w (direct, by_relay) =
      let relay : (v : W) → IsFair content (relay_fetch_of net h.device_id chunk v) = λ v.
        choice-IsFair content (is_missing h.device_id)
          (λ u. relayed (net.relay_fetch h.device_id chunk u)) v
          (relayed-IsFair content (net.relay_fetch h.device_id chunk v) (λ b e. by_relay v b e)) in
      if-IsFair content (is_missing h.connection_address) (relay_fetch_of net h.device_id chunk)
        (λ v.
          direct_data (relay_fetch_of net h.device_id chunk)
            (net.direct_fetch h.connection_address chunk token v))
        w (relay w)
        (direct_data-IsFair content (relay_fetch_of net h.device_id chunk)
          (net.direct_fetch h.connection_address chunk token w) relay (λ b e. direct w b e))

  is_contacted :
      (h : Holder)
      → IsGiving h
      → (h.is_offline || is_missing h.device_id && is_missing h.connection_address) ≡ false
  is_contacted h (directly online named gives) =
      ground (arith, is_missing_named h.connection_address named)
  is_contacted h (relayed_only online named unaddressed gives) =
      ground (arith, is_missing_named h.device_id named)
  is_contacted h (relayed_too online named unreached gives) =
      ground (arith, is_missing_named h.device_id named)

  pub first_data-IsServed :
      (setup : Setup) (holders : List Holder) (w : W)
      → IsServed holders
      → (w' : W) × (first_data setup net token chunk holders w ≡ (ok (some content), w'))
  unfolding first_data
  first_data-IsServed setup [] w served = absurd served
  first_data-IsServed setup (h ∷ holders) w (inl giving) =
      let (w', at) = holder_fetch-IsGiving h w giving in
      (w', rw (first_data, is_contacted h giving, at) refl)
  first_data-IsServed setup (h ∷ holders) w (inr (honest, served)) =
      elim (Bool-cases
        (h.is_offline || is_missing h.device_id && is_missing h.connection_address)) [
          | inl passed ↦
              let (w', at) = first_data-IsServed setup holders w served in
              (w', rw (first_data, passed) at)
          | inr asked ↦
              let (o, v, at, fair) = holder_fetch-IsFair h w honest in
              let (w', later) = first_data-IsServed setup holders v served in
              elim fair [
                | inl nothing ↦ (w', rw (first_data, asked, at, nothing) later)
                | inr content_given ↦ (v, rw (first_data, asked, at, content_given) refl)
              ]
        ]
