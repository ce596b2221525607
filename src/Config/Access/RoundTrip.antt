-- ===== src/Config/Access/RoundTrip.antt =====
-- What the setters write the getters read back.
use allpix_fork.Base.{
  ◌≡◌, ◌≢◌, refl, sym, ap, ◌∙◌, Bool, true, false, List, [], ◌∷◌, ◌++◌, map, arith, some, is_some,
  All, Str, Option-cases, inl, inr, undefined_behaviour, equal, equal_refl, lookup, insert,
  lookup-insert, Result, ok, err, append_assoc, append-nil, if◌then◌else◌,
}
use allpix_fork.Config.{Configuration, register_marker}
use allpix_fork.Config.Markers.{lookup-register}
use allpix_fork.Config.Value.{Node, node, children, parse_value, drop_last}
use allpix_fork.Config.Value.Plain.{listed, leaves}
use allpix_fork.Config.Value.Items.{IsItem, separated}
use allpix_fork.Config.Value.Lists.{
  parse_value-listed, inits, last, inits-last, drop_last-separated, All-inits,
}
use allpix_fork.Config.Access.{
  get_array, convert_children, store, append_elements, set_array, pop_back,
}

-- After a setter the key has the text that was written, and a marker.
pub store-lookup :
    (c : Configuration) (key str : Str) (mark : Bool)
    → (d : Configuration) × (store c key str mark ≡ ok d)
      × ((k : Str) → lookup k d.config ≡ (if equal key k then some str else lookup k c.config))
      × (is_some (lookup key d.used_keys) ≡ true)
unfolding store
store-lookup c key str true = (
  record c {
    config = insert key str c.config;
    used_keys = insert key true (register_marker key c.used_keys);
  },
  ground (arith, lookup-register key key c.used_keys, equal_refl key),
  (λ k. lookup-insert key k str c.config),
  ground (arith, lookup-insert key key true (register_marker key c.used_keys), equal_refl key),
)
store-lookup c key str false = (
  record c { config = insert key str c.config; used_keys = register_marker key c.used_keys },
  refl,
  (λ k. lookup-insert key k str c.config),
  ground (arith, lookup-register key key c.used_keys, equal_refl key),
)

module _ {ℓ} {T : Type ℓ} (conv : Str → Result T) (show : T → Str) where
  -- An element whose text is a plain item that converts back to it.
  pub record Reads (x : T) : Type ℓ where
    pub item : IsItem (show x)
    pub back : conv (show x) ≡ ok x

  append_elements-separated :
      (str : Str) (xs : List T) → append_elements show str xs ≡ str ++ separated (map show xs)
  unfolding append_elements
  append_elements-separated str [] = sym (append-nil str)
  append_elements-separated str (x ∷ xs) =
      append_elements-separated ((str ++ show x) ++ (b',' ∷ [])) xs
      ∙ append_assoc (str ++ show x) (b',' ∷ []) (separated (map show xs))
      ∙ append_assoc str (show x) (b',' ∷ separated (map show xs))

  pop_back-cons : (s t : Str) → s ≢ [] → drop_last s ≡ t → pop_back s ≡ ok t
  pop_back-cons [] t n h = absurd (n refl)
  pop_back-cons (c ∷ s) t n h = ap ok h

  convert_children-leaves :
      (c : Configuration) (key : Str) (xs : List T)
      → All Reads xs
      → convert_children conv c key (leaves (map show xs)) ≡ ok xs
  unfolding convert_children
  convert_children-leaves c key [] h = refl
  convert_children-leaves c key (x ∷ xs) h =
      rw (h.0.back, convert_children-leaves c key xs h.1) refl

  get_array_of :
      (d : Configuration) (key str : Str) (n : Node) (vs : List T)
      → lookup key d.config ≡ some str
      → is_some (lookup key d.used_keys) ≡ true
      → parse_value str ≡ ok n
      → convert_children conv d key (children n) ≡ ok vs
      → get_array conv d key ≡ ok (vs, record d { used_keys = insert key true d.used_keys })
  unfolding get_array
  get_array_of d key str n vs l u p h = elim (Option-cases (lookup key d.used_keys)) [
    | inl e ↦ absurd (ground (arith, e, u))
    | inr (b, e) ↦ rw (l, e, p, h) refl
  ]

  Reads-items : (xs : List T) → All Reads xs → All IsItem (map show xs)
  Reads-items [] h = tt
  Reads-items (x ∷ xs) h = (h.0.item, Reads-items xs h.1)

  nonempty : (x : T) (xs : List T) → separated (map show (x ∷ xs)) ≢ []
  nonempty x xs e = after (show x) e
    where
      after : (s : Str) → s ++ (b',' ∷ separated (map show xs)) ≡ [] → ⊥
      after [] e = cc
      after (c ∷ s) e = cc

  -- What `set_array` writes parses into the texts of its elements.
  written : (x : T) (xs : List T) → Str
  written x xs = listed (inits (show x) (map show xs)) (last (show x) (map show xs))

  parse-written :
      (x : T) (xs : List T)
      → All Reads (x ∷ xs)
      → parse_value (written x xs) ≡ ok (node (written x xs) (leaves (map show (x ∷ xs))))
  unfolding written
  parse-written x xs h =
      let i = All-inits IsItem (show x) (map show xs) (Reads-items (x ∷ xs) h) in
      parse_value-listed (inits (show x) (map show xs)) (last (show x) (map show xs)) i.0 i.1
      ∙ ap (λ ws. ok (node (written x xs) (leaves ws))) (inits-last (show x) (map show xs))

  set_array-store :
      (c : Configuration) (key : Str) (x : T) (xs : List T) (mark : Bool)
      → set_array show c key (x ∷ xs) mark ≡ store c key (written x xs) mark
  unfolding set_array written
  set_array-store c key x xs mark = rw (append_elements-separated [] (x ∷ xs)) (
      rw
        (pop_back-cons (separated (map show (x ∷ xs))) (written x xs) (nonempty x xs)
          (drop_last-separated (show x) (map show xs)))
        refl)

  -- An array that is not empty can be stored under a key and is then read back under it, if the text of
  -- every element, like that of a number, is not empty, converts back to the element and holds no
  -- quotation mark, bracket, comma or white space.
  pub get_array-set_array :
      (c : Configuration) (key : Str) (x : T) (xs : List T) (mark : Bool)
      → All Reads (x ∷ xs)
      → (d e : Configuration) × (set_array show c key (x ∷ xs) mark ≡ ok d)
        × (get_array conv d key ≡ ok (x ∷ xs, e))
  get_array-set_array c key x xs mark h =
      let (d, run, texts, marked) = store-lookup c key (written x xs) mark in
      (
        d,
        record d { used_keys = insert key true d.used_keys },
        set_array-store c key x xs mark ∙ run,
        get_array_of d key (written x xs) (node (written x xs) (leaves (map show (x ∷ xs))))
            (x ∷ xs) (texts key ∙ rw (equal_refl key) refl) marked (parse-written x xs h)
            (convert_children-leaves d key (x ∷ xs) h),
      )

  -- An empty array cannot be stored: the comma that is taken off the end is not there.
  pub set_array_nil :
      (c : Configuration) (key : Str) (mark : Bool)
      → set_array show c key [] mark ≡ err undefined_behaviour
  unfolding set_array
  set_array_nil c key mark = refl
