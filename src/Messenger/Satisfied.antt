-- ===== src/Messenger/Satisfied.antt =====
-- src/core/module/Module.cpp: `check_delegates`, which says whether a module runs on an event, after a
-- dispatch by Messenger.cpp.
use allpix_fork.Base.{
  ◌≡◌, refl, sym, ap, ◌∙◌, Bool, true, false, not, ◌&&◌, ◌||◌, List, [], ◌∷◌, ◌++◌, Option, none,
  some, All, all, is_some, if◌then◌else◌, Str, codes, equal, equal_iff, equal_refl, Dict, lookup,
  ok, ◌⊎◌, bind-eq-ok, arith, Bool-cases, inl, inr,
}
use allpix_fork.Messenger.{
  TypeIndex, base_message, BaseMessage, Module, BaseDelegate, DelegateTypes, Messenger,
  LocalMessenger, or_empty, at_both, put_both, check_send, deliver, dispatch_to, message_name,
  is_empty, dispatch_message,
}
use allpix_fork.Messenger.Registry.{find_delegate, satisfied_by, is_satisfied, check_delegates}
use allpix_fork.Messenger.Send.{
  at_both-put_both, listeners, deliver-takes, deliver-skips, Stages, dispatch_message-Stages,
}
use allpix_fork.Messenger.Delivery.{deliver-elsewhere, offered}

-- Some delegate of module `n` takes the message.
abbrev pub takes : Str → Module → BaseMessage → List BaseDelegate → Bool
takes n source message [] = false
takes n source message (d ∷ ds) =
    (check_send source message d && equal d.obj.unique_name n) || takes n source message ds

takes-append :
    (n : Str) (source : Module) (message : BaseMessage) (ds es : List BaseDelegate)
    → takes n source message (ds ++ es) ≡ (takes n source message ds || takes n source message es)
takes-append n source message [] es = refl
takes-append n source message (d ∷ ds) es = ground (arith, takes-append n source message ds es)

-- Module `n` has a record under type `t`.
abbrev pub has_record : Str → TypeIndex → Dict (Dict DelegateTypes) → Bool
has_record n t m = is_some (at_both n t m)

record-put_both :
    (k n : Str) (t : TypeIndex) (a : DelegateTypes) (m : Dict (Dict DelegateTypes))
    → has_record n t (put_both k t a m) ≡ (equal k n || has_record n t m)
record-put_both k n t a m = ap is_some (at_both-put_both k t n t a m) ∙ ground (arith, equal_refl t)

deliver-record :
    (source : Module) (message : BaseMessage) (name : Str) (t : TypeIndex) (n : Str)
    (ds : List BaseDelegate) (m : Dict (Dict DelegateTypes)) (r : Bool × Dict (Dict DelegateTypes))
    → deliver source message name t ds m ≡ ok r
    → has_record n t r.1 ≡ (has_record n t m || takes n source message ds)
unfolding deliver
deliver-record source message name t n [] m r h = ground arith
deliver-record source message name t n (d ∷ ds) m r h =
    elim (Bool-cases (check_send source message d)) [
      | inl e ↦
          let a = deliver-takes source message name t d ds m r e h in
          let rest =
            deliver-record source message name t n ds (put_both d.obj.unique_name t a.0 m) a.2
              a.3 in
          let put = record-put_both d.obj.unique_name n t a.0 m in
          rw e (ap (λ s. has_record n t s.1) a.4 ∙ rest ∙ ground arith)
      | inr e ↦ rw e (
          deliver-record source message name t n ds m r
            (sym (deliver-skips source message name t d ds m e) ∙ h))
    ]

dispatch_to-record :
    (g : Messenger) (source : Module) (message : BaseMessage) (name id n : Str) (t : TypeIndex)
    (m : Dict (Dict DelegateTypes)) (r : Bool × Dict (Dict DelegateTypes))
    → equal message.type base_message ≡ false
    → (t ≡ message.type) ⊎ (t ≡ base_message)
    → dispatch_to g source message name id m ≡ ok r
    → has_record n t r.1 ≡ (has_record n t m || takes n source message (listeners g t id))
unfolding dispatch_to
dispatch_to-record g source message name id n t m r x w h =
    let own = listeners g message.type id in
    let every = listeners g base_message id in
    let a = bind-eq-ok (deliver source message name message.type own m) _ h in
    let b = bind-eq-ok (deliver source message name base_message every a.0.1) _ a.2 in
    let ends : has_record n t r.1 ≡ has_record n t b.0.1 = ground arith in
    elim w [
      | inl e ↦
          let flip : equal base_message message.type ≡ false =
            ground
              (arith, equal_iff message.type base_message, equal_iff base_message message.type) in
          let kept =
            deliver-elsewhere source message name base_message message.type n every a.0.1 b.0 flip
              b.1 in
          let first = deliver-record source message name message.type n own m a.0 a.1 in
          ends ∙ rw e (ap is_some kept ∙ first)
      | inr e ↦
          let kept =
            deliver-elsewhere source message name message.type base_message n own m a.0 x a.1 in
          let first = deliver-record source message name base_message n every a.0.1 b.0 b.1 in
          ends ∙ rw e (first ∙ ap (λ o. is_some o || takes n source message every) kept)
    ]

dispatch_message-record :
    (g : Messenger) (l k : LocalMessenger) (source : Module) (message : BaseMessage)
    (given name n : Str) (t : TypeIndex) (sent : Bool)
    → equal message.type base_message ≡ false
    → (t ≡ message.type) ⊎ (t ≡ base_message)
    → message_name source given ≡ ok name
    → dispatch_message g l source message given ≡ ok (sent, k)
    → has_record n t k.messages
      ≡ (has_record n t l.messages || takes n source message (offered g t name))
dispatch_message-record g l k source message given name n t sent x w e h = ground (
  arith,
  takes-append n source message named (generic ++ unnamed),
  takes-append n source message generic unnamed,
  dispatch_to-record g source message name name n t l.messages s.named x w s.to_named,
  dispatch_to-record g source message name (codes "*") n t s.named.1 s.generic x w s.to_generic,
  last,
  ap (has_record n t) s.ends,
)
  where
    s : Stages g l source message name sent k
    s = dispatch_message-Stages g l k source message given name sent e h

    named : List BaseDelegate
    named = listeners g t name

    generic : List BaseDelegate
    generic = listeners g t (codes "*")

    unnamed : List BaseDelegate
    unnamed = if is_empty name then listeners g t (codes "?") else []

    last :
        has_record n t s.unnamed.1 ≡ (has_record n t s.generic.1 || takes n source message unnamed)
    last = elim (Bool-cases (is_empty name)) [
      | inl f ↦ rw f (
          dispatch_to-record g source message name (codes "?") n t s.generic.1 s.unnamed x w
            (rw f at s.to_unnamed))
      | inr f ↦ let skipped = rw f at s.to_unnamed in rw f (ground arith)
    ]

-- The type under which a delegate is registered.
abbrev pub place_type : Option (TypeIndex × Str) → TypeIndex
place_type none = []
place_type (some (t, n)) = t

abbrev pub listened_type : Messenger → BaseDelegate → TypeIndex
listened_type g d = place_type (find_delegate d.id g.delegate_to_iterator)

satisfied-place :
    (m : Option (Dict DelegateTypes)) (p : Option (TypeIndex × Str))
    → is_some p ≡ true
    → satisfied_by m p ≡ ok (is_some (lookup (place_type p) (or_empty m)))
unfolding satisfied_by lookup
satisfied-place m none known = absurd (ground arith)
satisfied-place none (some (t, n)) known = refl
satisfied-place (some m) (some (t, n)) known = refl

satisfied-record :
    (g : Messenger) (l : LocalMessenger) (d : BaseDelegate)
    → is_some (find_delegate d.id g.delegate_to_iterator) ≡ true
    → is_satisfied g l d ≡ ok (has_record d.obj.unique_name (listened_type g d) l.messages)
unfolding is_satisfied at_both
satisfied-record g l d known =
    satisfied-place (lookup d.obj.unique_name l.messages)
      (find_delegate d.id g.delegate_to_iterator) known

passed :
    (required now later : Bool)
    → (if not required then ok later else (if now then ok later else ok false))
      ≡ ok ((not required || now) && later)
passed required now later = ground arith

-- What a delegate waits for: nothing, a record from before, or that it takes the message.
abbrev pub ready : Messenger → LocalMessenger → Module → BaseMessage → Str → BaseDelegate → Bool
ready g l source message name d =
    not d.flags.required
    || (has_record d.obj.unique_name (listened_type g d) l.messages
        || takes d.obj.unique_name source message (offered g (listened_type g d) name))

-- The delegate is registered, for the type of the message or for all messages.
abbrev pub IsListed : Messenger → BaseMessage → BaseDelegate → Type 0
IsListed g message d =
    (is_some (find_delegate d.id g.delegate_to_iterator) ≡ true)
    × ((listened_type g d ≡ message.type) ⊎ (listened_type g d ≡ base_message))

-- A module whose registered delegates listen to the type of a message or to all messages runs after a
-- dispatch of that message without an error, if its type is not `BaseMessage`, exactly if each delegate
-- that requires a message had a record of its module and type before, or a delegate of its module and
-- type, under a name that the dispatch goes to, takes the message.
pub check_delegates-dispatch_message :
    (g : Messenger) (l k : LocalMessenger) (source : Module) (message : BaseMessage)
    (given name : Str) (sent : Bool) (ds : List BaseDelegate)
    → equal message.type base_message ≡ false
    → All (IsListed g message) ds
    → message_name source given ≡ ok name
    → dispatch_message g l source message given ≡ ok (sent, k)
    → check_delegates g k ds ≡ ok (all (ready g l source message name) ds)
unfolding check_delegates
check_delegates-dispatch_message g l k source message given name sent [] x a e h = refl
check_delegates-dispatch_message g l k source message given name sent (d ∷ ds) x a e h =
    let rest = check_delegates-dispatch_message g l k source message given name sent ds x a.1 e h in
    let record_now =
      dispatch_message-record g l k source message given name d.obj.unique_name (listened_type g d)
        sent x a.0.1 e h in
    rw (satisfied-record g k d a.0.0, record_now, rest)
      (passed d.flags.required
        (has_record d.obj.unique_name (listened_type g d) l.messages
          || takes d.obj.unique_name source message (offered g (listened_type g d) name))
        (all (ready g l source message name) ds))
