-- ===== src/Messenger/Delivery.antt =====
-- What a module finds among its messages after a dispatch.
use allpix_fork.Base.{
  ◌≡◌, refl, sym, ap, ◌∙◌, Bool, false, ◌&&◌, List, [], ◌∷◌, ◌++◌, if◌then◌else◌, Str, codes, equal,
  equal_iff, equal_refl, Dict, Result, ok, ◌>>=◌, ◌⊎◌, bind-eq-ok, arith, Bool-cases, inl, inr,
}
use allpix_fork.Messenger.{
  TypeIndex, base_message, BaseMessage, Module, BaseDelegate, DelegateTypes, Messenger,
  LocalMessenger, or_none, at_both, put_both, check_send, process, deliver, dispatch_to,
  message_name, is_empty, dispatch_message,
}
use allpix_fork.Messenger.Send.{
  at_both-put_both, listeners, deliver-takes, deliver-skips, Stages, dispatch_message-Stages,
}

-- What module `n` has stored under type `t`.
abbrev pub stored : Str → TypeIndex → Dict (Dict DelegateTypes) → DelegateTypes
stored n t m = or_none (at_both n t m)

-- The delegates of module `n` that take the message, in their order.
abbrev pub takers : Str → Module → BaseMessage → List BaseDelegate → List BaseDelegate
takers n source message [] = []
takers n source message (d ∷ ds) =
    if check_send source message d && equal d.obj.unique_name n
    then d ∷ takers n source message ds
    else takers n source message ds

abbrev pub process_all :
    BaseMessage → Str → List BaseDelegate → DelegateTypes → Result DelegateTypes
process_all message name [] dest = ok dest
process_all message name (d ∷ ds) dest =
    process d message name dest >>= λ new. process_all message name ds new

process_all-concat :
    (message : BaseMessage) (name : Str) (ds es : List BaseDelegate) (a b c : DelegateTypes)
    → process_all message name ds a ≡ ok b
    → process_all message name es b ≡ ok c
    → process_all message name (ds ++ es) a ≡ ok c
process_all-concat message name [] es a b c h k =
    ap (λ r. r >>= λ x. process_all message name es x) h ∙ k
process_all-concat message name (d ∷ ds) es a b c h k =
    let first = bind-eq-ok (process d message name a) _ h in
    rw first.1 (process_all-concat message name ds es first.0 b c first.2 k)

stored-put_both :
    (k n : Str) (t : TypeIndex) (a : DelegateTypes) (m : Dict (Dict DelegateTypes))
    → stored n t (put_both k t a m) ≡ (if equal k n then a else stored n t m)
stored-put_both k n t a m = ap or_none (at_both-put_both k t n t a m) ∙ ground (arith, equal_refl t)

deliver-stored :
    (source : Module) (message : BaseMessage) (name : Str) (t : TypeIndex) (n : Str)
    (ds : List BaseDelegate) (m : Dict (Dict DelegateTypes)) (r : Bool × Dict (Dict DelegateTypes))
    → deliver source message name t ds m ≡ ok r
    → process_all message name (takers n source message ds) (stored n t m) ≡ ok (stored n t r.1)
unfolding deliver
deliver-stored source message name t n [] m r h = ground arith
deliver-stored source message name t n (d ∷ ds) m r h =
    elim (Bool-cases (check_send source message d)) [
      | inl e ↦
          let a = deliver-takes source message name t d ds m r e h in
          let rest =
            deliver-stored source message name t n ds (put_both d.obj.unique_name t a.0 m) a.2
              a.3 in
          let put = stored-put_both d.obj.unique_name n t a.0 m in
          let all = takers n source message ds in
          rw e (elim (Bool-cases (equal d.obj.unique_name n)) [
            | inl f ↦
                let same = (equal_iff d.obj.unique_name n).0 f in
                let now = ap (λ k. process d message name (stored k t m)) (sym same) ∙ a.1 in
                rw f (
                  ap (λ x. x >>= process_all message name all) now
                  ∙ ap (process_all message name all) (sym (rw f at put))
                  ∙ rest
                  ∙ ap (λ s. ok (stored n t s.1)) (sym a.4))
            | inr f ↦ rw f (
                ap (process_all message name all) (sym (rw f at put))
                ∙ rest
                ∙ ap (λ s. ok (stored n t s.1)) (sym a.4))
          ])
      | inr e ↦ rw e (
          deliver-stored source message name t n ds m r
            (sym (deliver-skips source message name t d ds m e) ∙ h))
    ]

pub deliver-elsewhere :
    (source : Module) (message : BaseMessage) (name : Str) (t u : TypeIndex) (n : Str)
    (ds : List BaseDelegate) (m : Dict (Dict DelegateTypes)) (r : Bool × Dict (Dict DelegateTypes))
    → equal t u ≡ false
    → deliver source message name t ds m ≡ ok r
    → at_both n u r.1 ≡ at_both n u m
unfolding deliver
deliver-elsewhere source message name t u n [] m r x h = ground arith
deliver-elsewhere source message name t u n (d ∷ ds) m r x h =
    elim (Bool-cases (check_send source message d)) [
      | inl e ↦
          let a = deliver-takes source message name t d ds m r e h in
          ground (
            arith,
            deliver-elsewhere source message name t u n ds (put_both d.obj.unique_name t a.0 m) a.2
                x a.3,
            at_both-put_both d.obj.unique_name t n u a.0 m,
            ap (λ s. s.1) a.4,
          )
      | inr e ↦
          deliver-elsewhere source message name t u n ds m r x
            (sym (deliver-skips source message name t d ds m e) ∙ h)
    ]

-- What `dispatchMessage(source, message, name, id)` adds to the type of the message, and to that of the
-- listeners to all messages.
dispatch_to-stored :
    (g : Messenger) (source : Module) (message : BaseMessage) (name id n : Str) (t : TypeIndex)
    (m : Dict (Dict DelegateTypes)) (r : Bool × Dict (Dict DelegateTypes))
    → equal message.type base_message ≡ false
    → (t ≡ message.type) ⊎ (t ≡ base_message)
    → dispatch_to g source message name id m ≡ ok r
    → process_all message name (takers n source message (listeners g t id)) (stored n t m)
      ≡ ok (stored n t r.1)
unfolding dispatch_to
dispatch_to-stored g source message name id n t m r x w h =
    let own = listeners g message.type id in
    let every = listeners g base_message id in
    let a = bind-eq-ok (deliver source message name message.type own m) _ h in
    let b = bind-eq-ok (deliver source message name base_message every a.0.1) _ a.2 in
    let ends : (u : TypeIndex) → stored n u b.0.1 ≡ stored n u r.1 = λ u. ground arith in
    elim w [
      | inl e ↦
          let flip : equal base_message message.type ≡ false =
            ground
              (arith, equal_iff message.type base_message, equal_iff base_message message.type) in
          let kept =
            deliver-elsewhere source message name base_message message.type n every a.0.1 b.0 flip
              b.1 in
          rw e (
            deliver-stored source message name message.type n own m a.0 a.1
            ∙ ap (λ o. ok (or_none o)) (sym kept)
            ∙ ap ok (ends message.type))
      | inr e ↦
          let kept =
            deliver-elsewhere source message name message.type base_message n own m a.0 x a.1 in
          rw e (
            ap (λ o. process_all message name (takers n source message every) (or_none o))
              (sym kept)
            ∙ deliver-stored source message name base_message n every a.0.1 b.0 b.1
            ∙ ap ok (ends base_message))
    ]

-- The delegates that `dispatchMessage` offers a message of the name under type `t`, in this order.
abbrev pub offered : Messenger → TypeIndex → Str → List BaseDelegate
offered g t name =
    listeners g t name
    ++ (listeners g t (codes "*") ++ (if is_empty name then listeners g t (codes "?") else []))

pub takers-concat :
    (n : Str) (source : Module) (message : BaseMessage) (ds es : List BaseDelegate)
    → takers n source message (ds ++ es) ≡ takers n source message ds ++ takers n source message es
takers-concat n source message [] es = refl
takers-concat n source message (d ∷ ds) es = ground (arith, takers-concat n source message ds es)

-- A dispatch without an error of a message whose type is not `BaseMessage` changes the records of each
-- module, under the type of the message and under that of the listeners to all messages, as running
-- `process` in order does over those delegates of that module that `check_send` accepts: the listeners to
-- its name, then to "*", then, for a message without a name, to "?". The message is appended to the
-- sent messages.
pub dispatch_message-stored :
    (g : Messenger) (l k : LocalMessenger) (source : Module) (message : BaseMessage)
    (given name n : Str) (t : TypeIndex) (sent : Bool)
    → equal message.type base_message ≡ false
    → (t ≡ message.type) ⊎ (t ≡ base_message)
    → message_name source given ≡ ok name
    → dispatch_message g l source message given ≡ ok (sent, k)
    → (process_all message name (takers n source message (offered g t name)) (stored n t l.messages)
        ≡ ok (stored n t k.messages))
      × (k.sent_messages ≡ l.sent_messages ++ (message ∷ []))
dispatch_message-stored g l k source message given name n t sent x w e h = (
  rw (takers-concat n source message named (generic ++ unnamed)) (
      rw (takers-concat n source message generic unnamed) (
        process_all-concat message name (takers n source message named) _ _ _ _
          (dispatch_to-stored g source message name name n t l.messages s.named x w s.to_named)
          (process_all-concat message name (takers n source message generic) _ _ _ _
            (dispatch_to-stored g source message name (codes "*") n t s.named.1 s.generic x w
              s.to_generic)
            last))),
  s.keeps,
)
  where
    s : Stages g l source message name sent k
    s = dispatch_message-Stages g l k source message given name sent e h

    named : List BaseDelegate
    named = listeners g t name

    generic : List BaseDelegate
    generic = listeners g t (codes "*")

    unnamed : List BaseDelegate
    unnamed = if is_empty name then listeners g t (codes "?") else []

    last :
        process_all message name (takers n source message unnamed) (stored n t s.generic.1)
        ≡ ok (stored n t k.messages)
    last = elim (Bool-cases (is_empty name)) [
      | inl f ↦ rw f (
          dispatch_to-stored g source message name (codes "?") n t s.generic.1 s.unnamed x w
            (rw f at s.to_unnamed)
          ∙ ap (λ m. ok (stored n t m)) (sym s.ends))
      | inr f ↦
          let skipped = rw f at s.to_unnamed in
          rw f (ap (λ m. ok (stored n t m)) (ground arith ∙ sym s.ends))
    ]
