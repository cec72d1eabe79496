-- ===== src/Context/Lists.antt =====
-- The keys of a dictionary under the operations of the context manager, and lists cut at their front.
use agent_runtime.Context.Views.{update}
use agent_runtime.Prelude.{
  ℕ, suc, ◌≤◌, ◌<◌, true, false, List, [], ◌∷◌, ◌++◌, ◌≡◌, refl, arith, if◌then◌else◌, ◌==◌, length,
  length-append, is_some, ap, inl, inr, Bool-cases, ltb, ==_iff, ltb→lt,
}
use agent_runtime.Prelude.Dict.{Dict, lookup, insert, remove, keys, lookup-insert}
use agent_runtime.Prelude.Sets.{member, discard, member-append, member-discard}
use agent_runtime.Context.Manager.{touch, drop_oldest}

module _ {ℓ} {V : Type ℓ} where
  pub lookup-member : (k : ℕ) (d : Dict V) → is_some (lookup k d) ≡ member k (keys d)
  unfolding lookup member keys
  lookup-member k [] = refl
  lookup-member k ((j, v) ∷ d) = ground (arith, lookup-member k d)

  pub keys-remove : (k : ℕ) (d : Dict V) → keys (remove k d) ≡ discard k (keys d)
  unfolding remove discard keys
  keys-remove k [] = refl
  keys-remove k ((j, v) ∷ d) = ground (arith, keys-remove k d)

  keys-insert_absent :
      (k : ℕ) (v : V) (d : Dict V)
      → member k (keys d) ≡ false
      → keys (insert k v d) ≡ keys d ++ k ∷ []
  unfolding insert member keys
  keys-insert_absent k v [] h = refl
  keys-insert_absent k v ((j, w) ∷ d) h = ground (arith, keys-insert_absent k v d)

  pub keys-insert_present :
      (k : ℕ) (v : V) (d : Dict V) → member k (keys d) ≡ true → keys (insert k v d) ≡ keys d
  unfolding insert member keys
  keys-insert_present k v [] h = absurd (ground (arith, h))
  keys-insert_present k v ((j, w) ∷ d) h = ground (arith, keys-insert_present k v d)

  pub length-keys : (d : Dict V) → length (keys d) ≡ length d
  unfolding keys
  length-keys [] = refl
  length-keys ((k, v) ∷ d) = ap suc (length-keys d)

  pub keys-drop_oldest : (n : ℕ) (d : Dict V) → keys (drop_oldest n d) ≡ drop_oldest n (keys d)
  unfolding keys drop_oldest
  keys-drop_oldest n [] = refl
  keys-drop_oldest n ((k, v) ∷ d) = ground (arith, length-keys d, keys-drop_oldest n d)

abbrev pub touch_key : ℕ → List ℕ → List ℕ
touch_key k ks = discard k ks ++ k ∷ []

pub keys-touch {ℓ} :
    {V : Type ℓ} (k : ℕ) (v : V) (d : Dict V) → keys (touch k v d) ≡ touch_key k (keys d)
unfolding touch
keys-touch k v d =
    let absent : member k (keys (remove k d)) ≡ false =
      rw (keys-remove k d) (ground (arith, member-discard k k (keys d))) in
    rw (keys-insert_absent k v (remove k d) absent, keys-remove k d) refl

pub drop_oldest-short {ℓ} : {A : Type ℓ} (n : ℕ) (l : List A) → length l ≤ n → drop_oldest n l ≡ l
unfolding drop_oldest
drop_oldest-short n [] h = refl
drop_oldest-short n (x ∷ xs) h = ground (arith, drop_oldest-short n xs)

pub length-drop_oldest {ℓ} : {A : Type ℓ} (n : ℕ) (l : List A) → length (drop_oldest n l) ≤ n
unfolding drop_oldest
length-drop_oldest n [] = omega arith
length-drop_oldest n (x ∷ xs) = ground (arith, length-drop_oldest n xs)

-- No key twice.
abbrev pub IsDistinct : List ℕ → Type 0
IsDistinct [] = Unit
IsDistinct (k ∷ ks) = (member k ks ≡ false) × IsDistinct ks

discard_absent : (k : ℕ) (ks : List ℕ) → member k ks ≡ false → discard k ks ≡ ks
unfolding member discard
discard_absent k [] h = refl
discard_absent k (j ∷ ks) h = ground (arith, discard_absent k ks)

pub touch_key-IsDistinct : (k : ℕ) (ks : List ℕ) → IsDistinct ks → IsDistinct (touch_key k ks)
unfolding discard
touch_key-IsDistinct k [] h = (unfold member in refl, tt)
touch_key-IsDistinct k (j ∷ ks) h = elim (Bool-cases (j == k)) [
  | inl e ↦ rw e (touch_key-IsDistinct k ks h.1)
  | inr e ↦
      let fresh : member j (touch_key k ks) ≡ false =
        rw (member-append j (discard k ks) (k ∷ []), member-discard k j ks, h.0)
          (unfold member in ground arith) in
      rw e (fresh, touch_key-IsDistinct k ks h.1)
]

length-touch_key : (k : ℕ) (ks : List ℕ) → IsDistinct ks → length ks ≤ length (touch_key k ks)
unfolding discard member
length-touch_key k [] h = omega arith
length-touch_key k (j ∷ ks) h = elim (Bool-cases (j == k)) [
  | inl e ↦
      let absent : member k ks ≡ false = rw (← (==_iff j k).0 e) h.0 in
      rw (e, discard_absent k ks absent, length-append ks (k ∷ [])) (omega arith)
  | inr e ↦ rw e (omega (arith, length-touch_key k ks h.1))
]

length-discard-le : (k : ℕ) (ks : List ℕ) → length (discard k ks) ≤ length ks
unfolding discard
length-discard-le k [] = omega arith
length-discard-le k (j ∷ ks) = ground (arith, length-discard-le k ks)

length-discard-lt : (k : ℕ) (ks : List ℕ) → member k ks ≡ true → length (discard k ks) < length ks
unfolding discard member
length-discard-lt k [] h = absurd (ground (arith, h))
length-discard-lt k (j ∷ ks) h = ground (arith, h, length-discard-le k ks, length-discard-lt k ks)

-- Touching a key that is there needs no eviction.
pub drop_oldest-touch_key_present :
    (n k : ℕ) (ks : List ℕ)
    → member k ks ≡ true
    → length ks ≤ n
    → drop_oldest n (touch_key k ks) ≡ touch_key k ks
drop_oldest-touch_key_present n k ks h b =
    drop_oldest-short n (touch_key k ks)
      (rw length-append (omega (arith, b, length-discard-lt k ks h)))

drop_oldest_over :
    (n k : ℕ) (ks : List ℕ) → n < length (k ∷ ks) → drop_oldest n (k ∷ ks) ≡ drop_oldest n ks
unfolding drop_oldest
drop_oldest_over n k ks h = ground arith

-- Cutting before or after a key is touched is the same, as long as it is cut afterwards.
pub drop_oldest-touch_key :
    (n k : ℕ) (ks : List ℕ)
    → IsDistinct ks
    → drop_oldest n (touch_key k (drop_oldest n ks)) ≡ drop_oldest n (touch_key k ks)
unfolding drop_oldest discard
drop_oldest-touch_key n k [] h = refl
drop_oldest-touch_key n k (j ∷ ks) h = elim (Bool-cases (ltb n (suc (length ks)))) [
  | inl e ↦ elim (Bool-cases (j == k)) [
    | inl s ↦ rw (e, s) (drop_oldest-touch_key n k ks h.1)
    | inr s ↦
        rw
          (
            e,
            s,
            drop_oldest_over n j (touch_key k ks)
                (omega (arith, ltb→lt n (suc (length ks)) e, length-touch_key k ks h.1)),
          )
          (drop_oldest-touch_key n k ks h.1)
  ]
  | inr e ↦ rw e refl
]

module _ {ℓ} {V : Type ℓ} where
  member-keys-insert :
      (k j : ℕ) (v : V) (d : Dict V)
      → member j (keys (insert k v d)) ≡ (if k == j then true else member j (keys d))
  member-keys-insert k j v d =
      rw (← lookup-member j (insert k v d), ← lookup-member j d, lookup-insert) (ground (arith))

  insert-IsDistinct :
      (k : ℕ) (v : V) (d : Dict V) → IsDistinct (keys d) → IsDistinct (keys (insert k v d))
  unfolding insert keys
  insert-IsDistinct k v [] h = (unfold member in refl, tt)
  insert-IsDistinct k v ((j, w) ∷ d) h = elim (Bool-cases (j == k)) [
    | inl e ↦ rw e h
    | inr e ↦
        let fresh : member j (keys (insert k v d)) ≡ false =
          rw (member-keys-insert k j v d) (ground (arith, e, h.0)) in
        rw e (fresh, insert-IsDistinct k v d h.1)
  ]

  pub update-IsDistinct : (d e : Dict V) → IsDistinct (keys d) → IsDistinct (keys (update d e))
  unfolding update
  update-IsDistinct d [] h = h
  update-IsDistinct d ((k, v) ∷ e) h =
      update-IsDistinct (insert k v d) e (insert-IsDistinct k v d h)
