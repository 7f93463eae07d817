-- ===== src/Auth/Limiter/Bounds.antt =====
-- The map of buckets stays within its bound, and only the idlest bucket is ever dropped.
use context.Prelude.{
  ℕ, ◌*◌, ◌≤◌, ◌<◌, ◌≡◌, refl, sym, [], ◌∷◌, false, ltb, leb, length, ◌∙◌, none, some, arith, All,
  Bool-cases, Option-cases, inl, inr, ◌⊎◌,
}
use context.Text.Table
use context.Text.Table.{
  Table, IsTable, get-put, get-remove, put-IsTable, remove-IsTable, length-put_new, length-put_old,
  length-remove, put-All, remove-All, get-All,
}
use context.Text.{Text, text_eq, is_empty}
use context.Text.Words.{text_eq_iff}
use context.Auth.Bucket.{TokenBucket, new_token_bucket, allow, token}
use context.Auth.Bucket.Rate.{allow-IsCapped, allow-max}
use context.Auth.Limiter.{
  ApiKeyAuth, max_buckets, idlest, evict_idlest, charge, allow_request, make_room,
}

-- An entry of the map: named, within its burst, and with the burst of the configuration.
pub record IsEntry (limit : ℕ) (e : Text × TokenBucket) : Type 0 where
  pub named : is_empty e.0 ≡ false
  pub capped : e.1.tokens ≤ e.1.max * token
  pub limit_kept : e.1.max ≡ limit

pub record IsValid (a : ApiKeyAuth) : Type 0 where
  pub table : IsTable a.buckets
  pub entries : All (IsEntry a.rate_limit) a.buckets
  pub bounded : length a.buckets ≤ max_buckets

-- No bucket was used before `b`.
abbrev pub IsOldest : TokenBucket → Table TokenBucket → Type 0
IsOldest b = All (λ e. b.last_time ≤ e.1.last_time)

-- What the loop finds: the key it began with, or the key of a bucket that is oldest.
Found : Text → ℕ → Table TokenBucket → Text → Type 0
Found key oldest t victim =
    ((victim ≡ key) × All (λ (e : Text × TokenBucket). oldest ≤ e.1.last_time) t)
    ⊎ ((b : TokenBucket) × (Table.get victim t ≡ some b) × (b.last_time < oldest) × IsOldest b t)

idlest-Found :
    (limit : ℕ) (key : Text) (oldest : ℕ) (t : Table TokenBucket)
    → is_empty key ≡ false
    → IsTable t
    → All (IsEntry limit) t
    → Found key oldest t (idlest key oldest t)
unfolding idlest Found
idlest-Found limit key oldest [] h k l = inl (refl, tt)
idlest-Found limit key oldest ((j, b) ∷ t) h k l = elim (Bool-cases (ltb b.last_time oldest)) [
  | inl e ↦
      rw (h, e) (younger (ground arith) (idlest-Found limit j b.last_time t l.0.named k.1 l.1))
  | inr e ↦ rw (h, e) (same (ground arith) (idlest-Found limit key oldest t h k.1 l.1))
]
  where
    younger :
        b.last_time < oldest
        → Found j b.last_time t (idlest j b.last_time t)
        → Found key oldest ((j, b) ∷ t) (idlest j b.last_time t)
    younger lt (inl (e, a)) = inr (b, Table.get_head _ j b t e, lt, (omega arith, a))
    younger lt (inr (c, g, d, a)) =
        inr (c, Table.get_tail _ j b c t k.0 g, omega arith, (omega arith, a))

    same :
        oldest ≤ b.last_time
        → Found key oldest t (idlest key oldest t)
        → Found key oldest ((j, b) ∷ t) (idlest key oldest t)
    same le (inl (e, a)) = inl (e, (le, a))
    same le (inr (c, g, d, a)) = inr (c, Table.get_tail _ j b c t k.0 g, d, (omega arith, a))

victim_of_table :
    (limit : ℕ) (t : Table TokenBucket)
    → IsTable t
    → All (IsEntry limit) t
    → 0 < length t
    → (b : TokenBucket) × (Table.get (idlest [] 0 t) t ≡ some b) × IsOldest b t
unfolding Found idlest is_empty
victim_of_table limit [] x y z = absurd (omega arith)
victim_of_table limit ((j, b) ∷ t) x y z =
    elim (idlest-Found limit j b.last_time t y.0.named x.1 y.1) [
      | inl (e, all) ↦ (b, Table.get_head _ j b t e, (omega arith, all))
      | inr (c, g, d, all) ↦ (c, Table.get_tail _ j b c t x.0 g, (omega arith, all))
    ]

-- After an eviction there is room, and the state is as valid as before.
evict_idlest_lem :
    (a : ApiKeyAuth)
    → IsValid a
    → 0 < length a.buckets
    → IsValid (evict_idlest a)
      × (length (evict_idlest a).buckets < length a.buckets)
      × ((evict_idlest a).rate_limit ≡ a.rate_limit)
unfolding evict_idlest
evict_idlest_lem a v h =
    let (b, g, _) = victim_of_table a.rate_limit a.buckets v.table v.entries h in
    let shorter = length-remove (idlest [] 0 a.buckets) b a.buckets g in
    rw ((get-All (IsEntry a.rate_limit) _ b a.buckets v.entries g).named) (
      record {
        table = remove-IsTable _ a.buckets v.table;
        entries = remove-All (IsEntry a.rate_limit) _ a.buckets v.entries;
        bounded = omega (arith, v.bounded);
      },
      shorter,
      refl,
    )

evict_idlest_absent :
    (a : ApiKeyAuth) (key : Text)
    → Table.get key a.buckets ≡ none
    → Table.get key (evict_idlest a).buckets ≡ none
unfolding evict_idlest
evict_idlest_absent a key e = elim (Bool-cases (is_empty (idlest [] 0 a.buckets))) [
  | inl h ↦ rw h e
  | inr h ↦ rw h (ground (arith, get-remove (idlest [] 0 a.buckets) key a.buckets))
]

record HasRoom (a a' : ApiKeyAuth) (key : Text) : Type 0 where
  valid : IsValid a'
  room : length a'.buckets < max_buckets
  limit : a'.rate_limit ≡ a.rate_limit
  absent : Table.get key a'.buckets ≡ none

make_room-HasRoom :
    (a : ApiKeyAuth) (key : Text)
    → IsValid a
    → Table.get key a.buckets ≡ none
    → HasRoom a (make_room a) key
unfolding make_room
make_room-HasRoom a key v e = elim (Bool-cases (leb max_buckets (length a.buckets))) [
  | inl full ↦
      let (w, shorter, same) = evict_idlest_lem a v (ground arith) in
      rw full (record {
        valid = w;
        room = omega (arith, v.bounded);
        limit = same;
        absent = evict_idlest_absent a key e;
      })
  | inr free ↦ rw free (record { valid = v; room = ground arith; limit = refl; absent = e })
]

new_token_bucket-max : (limit now : ℕ) → (new_token_bucket limit now).max ≡ limit
unfolding new_token_bucket
new_token_bucket-max limit now = refl

charge-IsValid :
    (a : ApiKeyAuth) (key : Text) (b : TokenBucket) (now : ℕ)
    → IsValid a
    → is_empty key ≡ false
    → b.max ≡ a.rate_limit
    → length (Table.put key (allow b now).0 a.buckets) ≤ max_buckets
    → IsValid (charge a key b now).0
unfolding charge
charge-IsValid a key b now v named same fits = record {
  table = put-IsTable key (allow b now).0 a.buckets v.table;
  entries =
      put-All (IsEntry a.rate_limit) key (allow b now).0 a.buckets
        (λ j e. entry j (rw ((text_eq_iff j key).0 e) named)) (entry key named) v.entries;
  bounded = fits;
}
  where
    entry : (j : Text) → is_empty j ≡ false → IsEntry a.rate_limit (j, (allow b now).0)
    entry j h = record {
      named = h;
      capped = (allow-IsCapped b now).capped;
      limit_kept = allow-max b now ∙ same;
    }

-- Whatever the request, the state stays valid: at most `max_buckets` buckets, each key once, no
-- bucket above its burst.
pub allow_request-IsValid :
    (a : ApiKeyAuth) (key : Text) (now : ℕ)
    → IsValid a
    → is_empty key ≡ false
    → IsValid (allow_request a key now).0
unfolding allow_request
allow_request-IsValid a key now v named = elim (Option-cases (Table.get key a.buckets)) [
  | inr (b, e) ↦
      rw (e, allow_request)
        (charge-IsValid a key b now v named
          (get-All (IsEntry a.rate_limit) key b a.buckets v.entries e).limit_kept
          (rw (length-put_old key _ b a.buckets e) v.bounded))
  | inl e ↦
      let r = make_room-HasRoom a key v e in
      rw (e, allow_request)
        (charge-IsValid (make_room a) key (new_token_bucket a.rate_limit now) now r.valid named
          (new_token_bucket-max _ now ∙ sym r.limit)
          (omega (
            arith,
            r.room,
            length-put_new key (allow (new_token_bucket a.rate_limit now) now).0
                (make_room a).buckets r.absent,
          )))
]

get-evict_idlest :
    (a : ApiKeyAuth) (other : Text)
    → IsValid a
    → 0 < length a.buckets
    → (Table.get other (evict_idlest a).buckets ≡ Table.get other a.buckets)
      ⊎ ((b : TokenBucket) × (Table.get other a.buckets ≡ some b) × IsOldest b a.buckets)
unfolding evict_idlest
get-evict_idlest a other v h =
    let victim = idlest [] 0 a.buckets in
    let (b, g, old) = victim_of_table a.rate_limit a.buckets v.table v.entries h in
    let named = (get-All (IsEntry a.rate_limit) victim b a.buckets v.entries g).named in
    elim (Bool-cases (text_eq victim other)) [
      | inl e ↦ inr (b, rw (← (text_eq_iff victim other).0 e) g, old)
      | inr ne ↦ inl (rw named (rw get-remove (rw ne)))
    ]

-- The bucket of another key is as it was, or it is gone, and then the map was full and no bucket
-- was used before it.
pub get-allow_request :
    (a : ApiKeyAuth) (key other : Text) (now : ℕ)
    → IsValid a
    → text_eq key other ≡ false
    → (Table.get other (allow_request a key now).0.buckets ≡ Table.get other a.buckets)
      ⊎ ((max_buckets ≤ length a.buckets)
          × (b : TokenBucket) × (Table.get other a.buckets ≡ some b)
          × IsOldest b a.buckets)
unfolding allow_request
get-allow_request a key other now v ne = elim (Option-cases (Table.get key a.buckets)) [
  | inr (b, e) ↦ inl (rw (e, allow_request, charge) (rw get-put (rw ne)))
  | inl e ↦ elim (Bool-cases (leb max_buckets (length a.buckets))) [
    | inr free ↦ inl (rw (e, allow_request, charge, make_room) (rw free (rw get-put (rw ne))))
    | inl full ↦
        let at_cap : max_buckets ≤ length a.buckets = ground arith in
        elim (get-evict_idlest a other v (omega arith)) [
          | inl same ↦
              inl (rw (e, allow_request, charge, make_room) (rw full (rw get-put (rw ne same))))
          | inr (b, g, old) ↦ inr (at_cap, b, g, old)
        ]
  ]
]
