-- ===== src/Auth/Limiter/Verify.antt =====
-- Which presented keys are accepted: those that were configured.
use context.Prelude.Int.{ℤ}
use context.Prelude.{
  ℕ, ◌≡◌, refl, List, [], ◌∷◌, false, if◌then◌else◌, Option, none, some, Bool-cases, inl, inr,
  Member, here, there, ◌⊎◌, ◌↔◌,
}
use context.Text.Table
use context.Text.Table.{Table, get-put}
use context.Text.{Text, Unicode, text_eq, is_empty, trim_space}
use context.Text.Words.{text_eq_iff}
use context.Auth.Keys.{hash_key}
use context.Auth.Limiter.{key_id, add_keys, new_api_key_auth, find_hash, verify}

find_hash-get : (sum : Text) (valid : Table Text) → find_hash sum valid ≡ Table.get sum valid
unfolding find_hash Table.get
find_hash-get sum [] = refl
find_hash-get sum ((stored, id) ∷ valid) = rw (find_hash-get sum valid)

-- A configured key, trimmed, that is not blank and has the hash.
abbrev pub HasHash : Unicode → (Text → List ℕ) → Text → List Text → Type 0
HasHash u digest sum keys =
    (raw : Text) × Member raw keys
    × (is_empty (trim_space u raw) ≡ false)
    × (hash_key digest (trim_space u raw) ≡ sum)

abbrev pub IsSome {ℓ} : {A : Type ℓ} → Option A → Type 0
IsSome none = ⊥
IsSome (some a) = Unit

module _ (u : Unicode) (digest : Text → List ℕ) where
  skip_key :
      (sum raw : Text) (keys : List Text)
      → HasHash u digest sum keys
      → HasHash u digest sum (raw ∷ keys)
  skip_key sum raw keys (k, m, h, e) = (k, there m, h, e)

  abbrev with_key : Text → Table Text → Table Text
  with_key raw valid =
      if is_empty (trim_space u raw)
      then valid
      else Table.put (hash_key digest (trim_space u raw)) (key_id digest (trim_space u raw)) valid

  with_key_sound :
      (sum raw : Text) (valid : Table Text) (keys : List Text)
      → IsSome (Table.get sum (with_key raw valid))
      → IsSome (Table.get sum valid) ⊎ HasHash u digest sum (raw ∷ keys)
  with_key_sound sum raw valid keys h = elim (Bool-cases (is_empty (trim_space u raw))) [
    | inl blank ↦ inl (rw blank at h)
    | inr filled ↦ elim (Bool-cases (text_eq (hash_key digest (trim_space u raw)) sum)) [
      | inl e ↦ inr (raw, here refl, filled, (text_eq_iff _ sum).0 e)
      | inr e ↦ inl (rw e at (rw get-put at (rw filled at h)))
    ]
  ]

  with_key_complete :
      (sum raw : Text) (valid : Table Text)
      → IsSome (Table.get sum valid)
        ⊎ ((is_empty (trim_space u raw) ≡ false) × (hash_key digest (trim_space u raw) ≡ sum))
      → IsSome (Table.get sum (with_key raw valid))
  with_key_complete sum raw valid (inl h) = elim (Bool-cases (is_empty (trim_space u raw))) [
    | inl blank ↦ rw blank h
    | inr filled ↦ elim (Bool-cases (text_eq (hash_key digest (trim_space u raw)) sum)) [
      | inl e ↦ rw filled (rw get-put (rw e tt))
      | inr e ↦ rw filled (rw get-put (rw e h))
    ]
  ]
  with_key_complete sum raw valid (inr (filled, e)) =
      rw filled (rw get-put (rw ((text_eq_iff _ sum).1 e) tt))

  add_keys_sound :
      (sum : Text) (valid : Table Text) (keys : List Text)
      → IsSome (Table.get sum (add_keys u digest valid keys))
      → IsSome (Table.get sum valid) ⊎ HasHash u digest sum keys
  unfolding add_keys
  add_keys_sound sum valid [] h = inl h
  add_keys_sound sum valid (raw ∷ keys) h = elim (add_keys_sound sum (with_key raw valid) keys h) [
    | inl x ↦ with_key_sound sum raw valid keys x
    | inr x ↦ inr (skip_key sum raw keys x)
  ]

  add_keys_complete :
      (sum : Text) (valid : Table Text) (keys : List Text)
      → IsSome (Table.get sum valid) ⊎ HasHash u digest sum keys
      → IsSome (Table.get sum (add_keys u digest valid keys))
  unfolding add_keys
  add_keys_complete sum valid [] (inl h) = h
  add_keys_complete sum valid [] (inr (k, m, h, e)) = elim m [ ]
  add_keys_complete sum valid (raw ∷ keys) (inl h) =
      add_keys_complete sum (with_key raw valid) keys
        (inl (with_key_complete sum raw valid (inl h)))
  add_keys_complete sum valid (raw ∷ keys) (inr (k, there m, h, e)) =
      add_keys_complete sum (with_key raw valid) keys (inr (k, m, h, e))
  add_keys_complete sum valid (raw ∷ keys) (inr (k, here x, h, e)) =
      add_keys_complete sum (with_key raw valid) keys
        (inl (with_key_complete sum raw valid (inr (rw x at h, rw x at e))))

  -- A presented text is accepted exactly when it is not empty and has the hash of a configured key
  -- that is not blank, trimmed of the space around it.
  pub verify-new_api_key_auth_iff :
      (keys : List Text) (limit : ℤ) (presented : Text)
      → IsSome (verify digest (new_api_key_auth u digest keys limit) presented)
        ↔ ((is_empty presented ≡ false) × HasHash u digest (hash_key digest presented) keys)
  unfolding new_api_key_auth verify Table.get
  verify-new_api_key_auth_iff keys limit presented = elim (Bool-cases (is_empty presented)) [
    | inl blank ↦ (λ h. absurd (rw (blank, verify) at h), λ (filled, k). cc (blank, filled))
    | inr filled ↦ (
      λ h. (
        filled,
        from_none (add_keys_sound sum [] keys (rw find_hash-get at (rw (filled, verify) at h))),
      ),
      λ (_, k). rw (filled, verify) (rw find_hash-get (add_keys_complete sum [] keys (inr k))),
    )
  ]
    where
      sum : Text
      sum = hash_key digest presented

      from_none :
          IsSome (Table.get {V = Text} sum []) ⊎ HasHash u digest sum keys
          → HasHash u digest sum keys
      from_none (inl h) = absurd h
      from_none (inr h) = h
