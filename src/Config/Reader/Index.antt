-- ===== src/Config/Reader/Index.antt =====
-- `conf_map_` against the list of all configurations.
use allpix_fork.Base.{
  ℕ, suc, ◌+◌, ◌≡◌, refl, sym, ap, ◌∙◌, false, List, [], ◌∷◌, ◌++◌, ◌⊎◌, inl, inr, arith, some,
  if◌then◌else◌, Bool-cases, map, Str, Dict, lower, map-lower_idem, equal, equal_iff, length,
  length-append, lookup, lookup-insert, contains-lookup, All, append_assoc, append-nil, ok,
  bind-eq-ok, subst,
}
use allpix_fork.Text.{trim}
use allpix_fork.Config.{Configuration, FileSystem, new}
use allpix_fork.Config.Reader.{
  ConfigReader, read_trimmed, empty, entry, push_entry, add_configuration, init_map, copy, Reading,
  read_line, read_lines, lines, close_last, canonical_name, add_named, add, get_elem?, at_positions,
  get_configurations,
}

-- The configurations under a name, by the name that `key` gives each, in the order of the list.
module _ (key : Configuration → Str) (n : Str) where
  abbrev pub matching : List Configuration → List Configuration
  matching [] = []
  matching (c ∷ cs) = if equal (key c) n then c ∷ matching cs else matching cs

  -- Their positions, counted from `i`.
  abbrev pub positions : ℕ → List Configuration → List ℕ
  positions i [] = []
  positions i (c ∷ cs) = if equal (key c) n then i ∷ positions (suc i) cs else positions (suc i) cs

  positions-concat :
      (i : ℕ) (cs : List Configuration) (c : Configuration)
      → positions i (cs ++ (c ∷ []))
        ≡ positions i cs ++ (if equal (key c) n then (i + length cs) ∷ [] else [])
  positions-concat i [] c = ground arith
  positions-concat i (d ∷ cs) c = ground (arith, positions-concat (suc i) cs c)

ok_eq {ℓ} : {A : Type ℓ} {a b : A} → ok a ≡ ok b → a ≡ b
ok_eq h = ground arith

get_elem?-length {ℓ} :
    {A : Type ℓ} (pre cs : List A) (c : A) → get_elem? (pre ++ (c ∷ cs)) (length pre) ≡ some c
get_elem?-length [] cs c = refl
get_elem?-length (x ∷ pre) cs c = get_elem?-length pre cs c

module _ (key : Configuration → Str) (n : Str) where
  at-positions :
      (pre cs : List Configuration) (i : ℕ)
      → i ≡ length pre
      → at_positions (pre ++ cs) (positions key n i cs) ≡ matching key n cs
  at-positions pre [] i e = refl
  at-positions pre (c ∷ cs) i e =
      let next : at_positions (pre ++ (c ∷ cs)) (positions key n (suc i) cs) ≡ matching key n cs =
        rw (append_assoc pre (c ∷ []) cs) at
          (at-positions (pre ++ (c ∷ [])) cs (suc i) (omega (arith, length-append pre (c ∷ [])))) in
      elim (Bool-cases (equal (key c) n)) [
        | inl h ↦ rw (h, e, get_elem?-length pre cs c) (ap (◌∷◌ c) (rw e at next))
        | inr h ↦ rw h next
      ]

-- The map holds, for every name, the positions of the configurations with that name.
pub record IsIndexed (key : Configuration → Str) (r : ConfigReader) : Type 0 where
  pub indexed : (n : Str) → entry (lookup n r.conf_map) ≡ positions key n 0 r.conf_array

-- Section names count in lower case.
abbrev pub lower_name : Configuration → Str
lower_name c = map lower c.name

abbrev pub exact_name : Configuration → Str
exact_name c = c.name

entry-push :
    (name n : Str) (i : ℕ) (m : Dict (List ℕ))
    → entry (lookup n (push_entry name i m))
      ≡ entry (lookup n m) ++ (if equal name n then i ∷ [] else [])
entry-push name n i m = ground (
  arith,
  lookup-insert name n (entry (lookup name m) ++ (i ∷ [])) m,
  equal_iff name n,
  append-nil (entry (lookup n m)),
)

pub add_configuration-IsIndexed :
    (r : ConfigReader) (c : Configuration)
    → IsIndexed lower_name r
    → IsIndexed lower_name (add_configuration r c)
unfolding add_configuration
add_configuration-IsIndexed r c v = record { indexed = λ n. step n }
  where
    step :
        (n : Str)
        → entry (lookup n (add_configuration r c).conf_map)
          ≡ positions lower_name n 0 (add_configuration r c).conf_array
    step n =
        entry-push (map lower c.name) n (length r.conf_array) r.conf_map
        ∙ ap (λ is. is ++ (if equal (map lower c.name) n then length r.conf_array ∷ [] else []))
            (v.indexed n)
        ∙ ground (arith, positions-concat lower_name n 0 r.conf_array c)

read_trimmed-reader :
    (f : Str) (s t : Reading) (line : Str)
    → read_trimmed f s line ≡ ok t
    → (t.reader ≡ s.reader) ⊎ (t.reader ≡ add_configuration s.reader s.conf)
unfolding read_trimmed
read_trimmed-reader f s t [] h = ground arith
read_trimmed-reader f s t (c ∷ line) h = ground arith

read_line-IsIndexed :
    (f : Str) (s t : Reading) (line : Str)
    → read_line f s line ≡ ok t
    → IsIndexed lower_name s.reader
    → IsIndexed lower_name t.reader
unfolding read_line
read_line-IsIndexed f s t line h v =
    elim (read_trimmed-reader f (record s { line_num = s.line_num + 1 }) t (trim line) h) [
      | inl e ↦ subst (IsIndexed lower_name) (sym e) v
      | inr e ↦ subst (IsIndexed lower_name) (sym e) (add_configuration-IsIndexed s.reader s.conf v)
    ]

read_lines-IsIndexed :
    (f : Str) (ls : List Str) (s t : Reading)
    → read_lines f s ls ≡ ok t
    → IsIndexed lower_name s.reader
    → IsIndexed lower_name t.reader
unfolding read_lines
read_lines-IsIndexed f [] s t h v =
    subst (λ (r : Reading). IsIndexed lower_name r.reader) (ok_eq h) v
read_lines-IsIndexed f (l ∷ ls) s t h v =
    let (u, e, k) = bind-eq-ok (read_line f s l) (λ u. read_lines f u ls) h in
    read_lines-IsIndexed f ls u t k (read_line-IsIndexed f s u l e v)

add_named-IsIndexed :
    (r d : ConfigReader) (stream f : Str)
    → add_named r stream f ≡ ok d
    → IsIndexed lower_name r
    → IsIndexed lower_name d
unfolding add_named
add_named-IsIndexed r d stream f h v =
    let begun : Reading = record { reader = r; conf = new [] f; line_num = 0 } in
    let (s, e, k) = bind-eq-ok (read_lines f begun (lines stream)) close_last h in
    subst (IsIndexed lower_name) (ok_eq k) (
      add_configuration-IsIndexed s.reader s.conf
        (read_lines-IsIndexed f (lines stream) begun s e v))

-- Reading a file on top of a reader keeps its index right.
pub add-IsIndexed :
    (fs : FileSystem) (r d : ConfigReader) (stream file_name : Str)
    → add fs r stream file_name ≡ ok d
    → IsIndexed lower_name r
    → IsIndexed lower_name d
unfolding add
add-IsIndexed fs r d stream file_name h v =
    let (f, e, k) = bind-eq-ok (canonical_name fs file_name) (add_named r stream) h in
    add_named-IsIndexed r d stream f k v

empty-IsIndexed : (key : Configuration → Str) → IsIndexed key empty
unfolding lookup
empty-IsIndexed key = record { indexed = λ n. refl }

pub get_configurations-key :
    (key : Configuration → Str) (r : ConfigReader) (n : Str)
    → IsIndexed key r
    → get_configurations r n ≡ matching key (map lower n) r.conf_array
unfolding get_configurations
get_configurations-key key r n v = rw (map-lower_idem n) (
    ground (
      arith,
      contains-lookup (map lower n) r.conf_map,
      v.indexed (map lower n),
      at-positions key (map lower n) [] r.conf_array 0 refl,
    ))

-- When an empty reader has read a file without an error, the configurations under a name are those of
-- the array that have this name in any case of the letters, in the order of the array.
pub get_configurations-matching :
    (fs : FileSystem) (d : ConfigReader) (stream file_name n : Str)
    → add fs empty stream file_name ≡ ok d
    → get_configurations d n ≡ matching lower_name (map lower n) d.conf_array
get_configurations-matching fs d stream file_name n h =
    get_configurations-key lower_name d n
      (add-IsIndexed fs empty d stream file_name h (empty-IsIndexed lower_name))

init_map-positions :
    (n : Str) (i : ℕ) (cs : List Configuration) (m : Dict (List ℕ))
    → entry (lookup n (init_map i cs m)) ≡ entry (lookup n m) ++ positions exact_name n i cs
unfolding init_map
init_map-positions n i [] m = sym (append-nil (entry (lookup n m)))
init_map-positions n i (c ∷ cs) m =
    init_map-positions n (suc i) cs (push_entry c.name i m)
    ∙ ap (λ is. is ++ positions exact_name n (suc i) cs) (entry-push c.name n i m)
    ∙ append_assoc (entry (lookup n m)) (if equal c.name n then i ∷ [] else [])
        (positions exact_name n (suc i) cs)
    ∙ ap (◌++◌ (entry (lookup n m))) (ground arith)

pub copy-IsIndexed : (r : ConfigReader) → IsIndexed exact_name (copy r)
unfolding copy lookup
copy-IsIndexed r = record { indexed = λ n. init_map-positions n 0 r.conf_array [] }

matching-none :
    (key : Configuration → Str) (n : Str) (cs : List Configuration)
    → All (λ c. equal (key c) n ≡ false) cs
    → matching key n cs ≡ []
matching-none key n [] h = refl
matching-none key n (c ∷ cs) h = ground (arith, matching-none key n cs h.1)

-- A copy of a reader finds no configuration under a name that no section spells in lower case.
pub copy_forgets :
    (r : ConfigReader) (n : Str)
    → All (λ c. equal c.name (map lower n) ≡ false) r.conf_array
    → get_configurations (copy r) n ≡ []
copy_forgets r n h =
    get_configurations-key exact_name (copy r) n (copy-IsIndexed r)
    ∙ unfold copy in matching-none exact_name (map lower n) r.conf_array h
