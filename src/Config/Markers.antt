-- ===== src/Config/Markers.antt =====
-- The markers follow the keys: every key has a marker, whatever is done to the configuration.
use allpix_fork.Base.{
  ◌≡◌, refl, Bool, true, false, not, ◌&&◌, ◌||◌, List, [], ◌∷◌, inl, inr, Option, none, some, arith,
  if◌then◌else◌, Bool-cases, Option-cases, Str, Dict, is_some, equal, equal_iff, equal_refl, lookup,
  insert, contains, lookup-insert, contains-lookup, ok, err, missing_key,
}
use allpix_fork.Config.{
  Configuration, register_marker, mark_used, is_used, has, get_text, set_text, set_alias,
  merge_entries, is_internal, visible, get_all, unused_loop, get_unused_keys,
}

-- Every key has a marker.
pub record IsMarked (c : Configuration) : Type 0 where
  pub marked :
      (k : Str) → is_some (lookup k c.config) ≡ true → is_some (lookup k c.used_keys) ≡ true

pub lookup-register :
    (key k : Str) (m : Dict Bool)
    → lookup k (register_marker key m)
      ≡ (if equal key k && not (is_some (lookup k m)) then some false else lookup k m)
unfolding register_marker
lookup-register key k m =
    ground
      (arith, contains-lookup key m, lookup-insert key k false m, equal_iff key k, equal_iff k key)

set_text-marked :
    (c : Configuration) (key val k : Str)
    → (is_some (lookup k c.config) ≡ true → is_some (lookup k c.used_keys) ≡ true)
    → is_some (lookup k (set_text c key val).config) ≡ true
    → is_some (lookup k (set_text c key val).used_keys) ≡ true
unfolding set_text
set_text-marked c key val k m h =
    ground (arith, lookup-insert key k val c.config, lookup-register key k c.used_keys)

pub set_text-IsMarked :
    {c : Configuration} (key val : Str) → IsMarked c → IsMarked (set_text c key val)
set_text-IsMarked {c} key val m = record {
  marked = λ k h. set_text-marked c key val k (m.marked k) h;
}

pub merge-IsMarked : (m : Dict Str) (c : Configuration) → IsMarked c → IsMarked (merge_entries c m)
unfolding merge_entries
merge-IsMarked [] c h = h
merge-IsMarked ((k, v) ∷ m) c h = elim (Bool-cases (has c k)) [
  | inl e ↦ rw e (merge-IsMarked m c h)
  | inr e ↦ rw e (merge-IsMarked m (set_text c k v) (set_text-IsMarked k v h))
]

-- A key that is there is read with its text, and a missing one is an error that names it.
pub get_text-lookup :
    (c : Configuration) (key : Str)
    → IsMarked c
    → get_text c key ≡ elim (lookup key c.config) [
      | none ↦ err (missing_key key c.name)
      | some text ↦ ok (text, record c { used_keys = insert key true c.used_keys })
    ]
unfolding get_text
get_text-lookup c key m = ground (arith, m.marked key)

pub has-lookup : (c : Configuration) (k : Str) → has c k ≡ is_some (lookup k c.config)
unfolding has
has-lookup c k = contains-lookup k c.config

pub lookup-set_text :
    (c : Configuration) (j k v : Str)
    → lookup k (set_text c j v).config ≡ (if equal j k then some v else lookup k c.config)
unfolding set_text
lookup-set_text c j k v = lookup-insert j k v c.config

-- A merge keeps the keys that are there, and takes all others from the other configuration.
pub merge-lookup :
    (m : Dict Str) (c : Configuration) (k : Str)
    → lookup k (merge_entries c m).config
      ≡ (if is_some (lookup k c.config) then lookup k c.config else lookup k m)
unfolding merge_entries lookup
merge-lookup [] c k = ground arith
merge-lookup ((j, v) ∷ m) c k = ground (
  arith,
  merge-lookup m c k,
  merge-lookup m (set_text c j v) k,
  has-lookup c j,
  lookup-set_text c j k v,
  equal_iff j k,
)

-- `set_alias` on a configuration whose keys are marked does not fail: it copies the text of the old key
-- to a new key that is not there, and then the old key counts as used.
pub set_alias-lookup :
    (c : Configuration) (new_key old_key : Str)
    → IsMarked c
    → (d : Configuration) × (set_alias c new_key old_key ≡ ok d)
      × ((k : Str)
          → lookup k d.config ≡ (
              if equal new_key k && not (has c new_key) && has c old_key
              then lookup old_key c.config
              else lookup k c.config))
      × IsMarked d
unfolding set_alias has mark_used
set_alias-lookup c new_key old_key m =
    elim (Bool-cases (not (contains old_key c.config) || contains new_key c.config)) [
      | inl e ↦ (c, rw e refl, (λ k. ground arith), m)
      | inr e ↦ elim (Option-cases (lookup old_key c.config)) [
        | inl n ↦ absurd (ground (arith, contains-lookup old_key c.config))
        | inr (text, t) ↦ (
          record c {
            config = insert new_key text c.config;
            used_keys = insert old_key true (register_marker new_key c.used_keys);
          },
          rw (e, t) (ground (arith, m.marked old_key, lookup-register new_key old_key c.used_keys)),
          (λ k. ground (arith, lookup-insert new_key k text c.config)),
          record {
            marked = λ k h. ground (
              arith,
              lookup-insert new_key k text c.config,
              m.marked k,
              lookup-insert old_key k true (register_marker new_key c.used_keys),
              lookup-register new_key k c.used_keys,
            );
          },
        )
      ]
    ]

abbrev pub contains_key : Str → List Str → Bool
contains_key k [] = false
contains_key k (j ∷ ks) = equal j k || contains_key k ks

abbrev pub is_unused : Option Bool → Bool
is_unused none = false
is_unused (some u) = not u

unused_loop-keys :
    (used : Dict Bool) (m : Dict Str)
    → ((k : Str) → is_some (lookup k m) ≡ true → is_some (lookup k used) ≡ true)
    → (ks : List Str) × (unused_loop used (visible m) ≡ ok ks)
      × ((k : Str)
          → contains_key k ks ≡ (contains k m && not (is_internal k) && is_unused (lookup k used)))
unfolding contains is_used lookup
unused_loop-keys used [] h = ([], refl, λ k. refl)
unused_loop-keys used ((j, v) ∷ m) h =
    let (ks, run, spec) = unused_loop-keys used m (λ k e. h k (ground arith)) in
    elim (Bool-cases (is_internal j)) [
      | inl e ↦ (ks, rw e run, λ k. ground (arith, spec k, equal_iff j k))
      | inr e ↦ elim (Option-cases (lookup j used)) [
        | inl n ↦ absurd (ground (arith, h j, equal_refl j))
        | inr (true, n) ↦ (ks, rw (e, n) (rw run refl), λ k. ground (arith, spec k, equal_iff j k))
        | inr (false, n) ↦
            (j ∷ ks, rw (e, n) (rw run refl), λ k. ground (arith, spec k, equal_iff j k))
      ]
    ]

-- In a configuration whose keys are marked, the unused keys can be told, and are the keys that do not
-- start with an underscore and whose marker has not been set.
pub get_unused_keys-keys :
    (c : Configuration)
    → IsMarked c
    → (ks : List Str) × (get_unused_keys c ≡ ok ks)
      × ((k : Str)
          → contains_key k ks
            ≡ (has c k && not (is_internal k) && is_unused (lookup k c.used_keys)))
unfolding get_unused_keys get_all has
get_unused_keys-keys c m = unused_loop-keys c.used_keys c.config m.marked
