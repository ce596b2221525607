-- ===== src/Messenger/Register.antt =====
-- Registration and removal of delegates.
use allpix_fork.Base.{
  ℕ, ◌≡◌, refl, ap, ◌∙◌, Bool, false, ◌&&◌, ◌||◌, List, [], ◌∷◌, ◌++◌, none, some, ◌==◌,
  if◌then◌else◌, Str, equal, equal_iff, equal_refl, Dict, ok, arith, Bool-cases, inl, inr,
}
use allpix_fork.Messenger.{TypeIndex, Module, BaseDelegate, Messenger, or_empty, at_both, put_both}
use allpix_fork.Messenger.Registry.{
  find_delegate, listened_name, emplace_place, add_delegate, erase_delegate, erase_place, remove_at,
  remove_delegate,
}
use allpix_fork.Messenger.Send.{at_both-put_both, listeners}

abbrev pub registered : ℕ → List BaseDelegate → Bool
registered id [] = false
registered id (d ∷ ds) = d.id == id || registered id ds

erase_delegate-last :
    (d : BaseDelegate) (ds : List BaseDelegate)
    → registered d.id ds ≡ false
    → erase_delegate d.id (ds ++ (d ∷ [])) ≡ ds
erase_delegate-last d [] h = ground arith
erase_delegate-last d (e ∷ ds) h = ground (arith, erase_delegate-last d ds)

place-emplace :
    (id : ℕ) (t n : Str) (m : List (ℕ × TypeIndex × Str))
    → find_delegate id m ≡ none
    → (find_delegate id (emplace_place id t n m) ≡ some (t, n))
      × (erase_place id (emplace_place id t n m) ≡ m)
place-emplace id t n m h = (ground arith, ground arith)

listeners-put_both :
    (t n u k : Str) (ds : List BaseDelegate) (m : Dict (Dict (List BaseDelegate)))
    → or_empty (at_both u k (put_both t n ds m))
      ≡ (if equal t u && equal n k then ds else or_empty (at_both u k m))
listeners-put_both t n u k ds m =
    ap or_empty (at_both-put_both t n u k ds m)
    ∙ (elim (Bool-cases (equal t u && equal n k)) [ inl e ↦ rw e refl | inr e ↦ rw e refl ])

-- The messenger after the registration under `n`.
abbrev added : Messenger → TypeIndex → Str → BaseDelegate → Messenger
added g t n d = record {
  delegates = put_both t n (listeners g t n ++ (d ∷ [])) g.delegates;
  delegate_to_iterator = emplace_place d.id t n g.delegate_to_iterator;
}

add_delegate-added :
    (g : Messenger) (t : Str) (m : Module) (d : BaseDelegate) (n : Str)
    → listened_name d m ≡ ok n
    → add_delegate g t m d ≡ ok (added g t n d)
unfolding add_delegate
add_delegate-added g t m d n l = rw l refl

added-listeners :
    (g : Messenger) (t n : Str) (d : BaseDelegate)
    → listeners (added g t n d) t n ≡ listeners g t n ++ (d ∷ [])
added-listeners g t n d =
    listeners-put_both t n t n (listeners g t n ++ (d ∷ [])) g.delegates
    ∙ ground (arith, equal_refl t, equal_refl n)

-- What the removal at a place leaves.
abbrev removed : Messenger → ℕ → TypeIndex → Str → Messenger
removed g id t n = record {
  delegates = put_both t n (erase_delegate id (listeners g t n)) g.delegates;
  delegate_to_iterator = erase_place id g.delegate_to_iterator;
}

remove_delegate-removed :
    (g : Messenger) (id : ℕ) (t n : Str)
    → find_delegate id g.delegate_to_iterator ≡ some (t, n)
    → remove_delegate g id ≡ ok (removed g id t n)
unfolding remove_delegate remove_at
remove_delegate-removed g id t n e = ap (remove_at g id) e

removed-added :
    (g : Messenger) (t n u k : Str) (d : BaseDelegate)
    → registered d.id (listeners g t n) ≡ false
    → listeners (removed (added g t n d) d.id t n) u k ≡ listeners g u k
removed-added g t n u k d f =
    listeners-put_both t n u k (erase_delegate d.id (listeners (added g t n d) t n))
      (added g t n d).delegates
    ∙ (elim (Bool-cases (equal t u && equal n k)) [
      | inl e ↦
          let same : t ≡ u = (equal_iff t u).0 (ground arith) in
          let like : n ≡ k = (equal_iff n k).0 (ground arith) in
          rw e (
            ap (erase_delegate d.id) (added-listeners g t n d)
            ∙ erase_delegate-last d (listeners g t n) f
            ∙ ap (λ v. listeners g v n) same
            ∙ ap (λ v. listeners g u v) like)
      | inr e ↦
          rw e (listeners-put_both t n u k (listeners g t n ++ (d ∷ [])) g.delegates ∙ ground arith)
    ])

-- A delegate that is not yet registered, and whose name to listen to can be had, which its flags choose or
-- the configuration of its module, can be added: it is then the last of the listeners to its type and this
-- name. It can then be removed, and the messenger has the same listeners for every type and name as
-- before, and the same places.
pub remove_delegate-add_delegate :
    (g : Messenger) (t : Str) (m : Module) (d : BaseDelegate) (n : Str)
    → listened_name d m ≡ ok n
    → registered d.id (listeners g t n) ≡ false
    → find_delegate d.id g.delegate_to_iterator ≡ none
    → (h : Messenger) × (add_delegate g t m d ≡ ok h)
      × (listeners h t n ≡ listeners g t n ++ (d ∷ []))
      × (r : Messenger) × (remove_delegate h d.id ≡ ok r)
      × ((u k : Str) → listeners r u k ≡ listeners g u k)
      × (r.delegate_to_iterator ≡ g.delegate_to_iterator)
remove_delegate-add_delegate g t m d n l f p =
    let place = place-emplace d.id t n g.delegate_to_iterator p in
    (
      added g t n d,
      add_delegate-added g t m d n l,
      added-listeners g t n d,
      removed (added g t n d) d.id t n,
      remove_delegate-removed (added g t n d) d.id t n place.0,
      λ u k. removed-added g t n u k d f,
      place.1,
    )
