-- ===== src/Messenger/Send.antt =====
-- Which messages find a receiver: `dispatchMessage` and `hasReceiver` of Messenger.cpp.
use allpix_fork.Base.{
  ◌≡◌, refl, sym, ap, ◌∙◌, Bool, true, false, ◌&&◌, ◌||◌, List, [], ◌∷◌, ◌++◌, some, if◌then◌else◌,
  Str, codes, equal, equal_iff, Dict, lookup, insert, ok, bind-eq-ok, lookup-insert, arith,
  Bool-cases, inl, inr,
}
use allpix_fork.Messenger.{
  TypeIndex, base_message, BaseMessage, Module, BaseDelegate, DelegateTypes, Messenger,
  LocalMessenger, or_empty, or_none, at_both, put_both, check_send, any_send, process, deliver,
  dispatch_to, message_name, is_empty, dispatch_message,
}

pub at_both-put_both {ℓ} :
    {A : Type ℓ} (t n u k : Str) (a : A) (m : Dict (Dict A))
    → at_both u k (put_both t n a m) ≡ (if equal t u && equal n k then some a else at_both u k m)
unfolding at_both put_both
at_both-put_both t n u k a m =
    rw (lookup-insert t u (insert n a (or_empty (lookup t m))) m) (elim (Bool-cases (equal t u)) [
      | inl e ↦
          let same : t ≡ u = (equal_iff t u).0 e in
          rw e (rw (lookup-insert n k a (or_empty (lookup t m))) (ground (arith, same)))
      | inr e ↦ rw e refl
    ])

-- The listeners of a type and a name.
abbrev pub listeners : Messenger → TypeIndex → Str → List BaseDelegate
listeners g t n = or_empty (at_both t n g.delegates)

-- Some delegate under `id` takes the message, of its own type or of all types.
abbrev pub hears : Messenger → Module → BaseMessage → Str → Bool
hears g source message id =
    any_send source message (listeners g message.type id)
    || any_send source message (listeners g base_message id)

-- A delegate that takes the message: it is processed, and then the loop goes on.
pub deliver-takes :
    (source : Module) (message : BaseMessage) (name : Str) (t : TypeIndex) (d : BaseDelegate)
    (ds : List BaseDelegate) (m : Dict (Dict DelegateTypes)) (r : Bool × Dict (Dict DelegateTypes))
    → check_send source message d ≡ true
    → deliver source message name t (d ∷ ds) m ≡ ok r
    → (dest : DelegateTypes) × (process d message name (or_none (at_both d.obj.unique_name t m))
        ≡ ok dest)
      × (s : Bool × Dict (Dict DelegateTypes)) × (deliver source message name t ds
            (put_both d.obj.unique_name t dest m)
          ≡ ok s)
      × (r ≡ (true, s.1))
unfolding deliver
deliver-takes source message name t d ds m r e h =
    let whole = rw e at h in
    let a = bind-eq-ok (process d message name (or_none (at_both d.obj.unique_name t m))) _ whole in
    let b =
      bind-eq-ok (deliver source message name t ds (put_both d.obj.unique_name t a.0 m)) _ a.2 in
    (a.0, a.1, b.0, b.1, ground arith)

pub deliver-skips :
    (source : Module) (message : BaseMessage) (name : Str) (t : TypeIndex) (d : BaseDelegate)
    (ds : List BaseDelegate) (m : Dict (Dict DelegateTypes))
    → check_send source message d ≡ false
    → deliver source message name t (d ∷ ds) m ≡ deliver source message name t ds m
unfolding deliver
deliver-skips source message name t d ds m e = rw e refl

deliver-sent :
    (source : Module) (message : BaseMessage) (name : Str) (t : TypeIndex) (ds : List BaseDelegate)
    (m : Dict (Dict DelegateTypes)) (r : Bool × Dict (Dict DelegateTypes))
    → deliver source message name t ds m ≡ ok r
    → r.0 ≡ any_send source message ds
unfolding deliver
deliver-sent source message name t [] m r h = ground arith
deliver-sent source message name t (d ∷ ds) m r h =
    elim (Bool-cases (check_send source message d)) [
      | inl e ↦ let a = deliver-takes source message name t d ds m r e h in rw e (ap (λ s. s.0) a.4)
      | inr e ↦ rw e (
          deliver-sent source message name t ds m r
            (sym (deliver-skips source message name t d ds m e) ∙ h))
    ]

dispatch_to-sent :
    (g : Messenger) (source : Module) (message : BaseMessage) (name id : Str)
    (m : Dict (Dict DelegateTypes)) (r : Bool × Dict (Dict DelegateTypes))
    → dispatch_to g source message name id m ≡ ok r
    → r.0 ≡ hears g source message id
unfolding dispatch_to
dispatch_to-sent g source message name id m r h =
    let a =
      bind-eq-ok (deliver source message name message.type (listeners g message.type id) m) _ h in
    let b =
      bind-eq-ok (deliver source message name base_message (listeners g base_message id) a.0.1) _
        a.2 in
    ground (
      arith,
      deliver-sent source message name message.type (listeners g message.type id) m a.0 a.1,
      deliver-sent source message name base_message (listeners g base_message id) a.0.1 b.0 b.1,
    )

-- The three stages of a dispatch.
pub record Stages (g : Messenger) (l : LocalMessenger) (source : Module) (message : BaseMessage)
    (name : Str) (sent : Bool) (k : LocalMessenger) : Type 0 where
  pub named : Bool × Dict (Dict DelegateTypes)
  pub generic : Bool × Dict (Dict DelegateTypes)
  pub unnamed : Bool × Dict (Dict DelegateTypes)
  pub to_named : dispatch_to g source message name name l.messages ≡ ok named
  pub to_generic : dispatch_to g source message name (codes "*") named.1 ≡ ok generic
  pub to_unnamed :
      (if is_empty name
        then dispatch_to g source message name (codes "?") generic.1
        else ok (false, generic.1))
      ≡ ok unnamed
  pub sends : sent ≡ (named.0 || generic.0 || unnamed.0)
  pub ends : k.messages ≡ unnamed.1
  pub keeps : k.sent_messages ≡ l.sent_messages ++ (message ∷ [])

pub dispatch_message-Stages :
    (g : Messenger) (l k : LocalMessenger) (source : Module) (message : BaseMessage)
    (given name : Str) (sent : Bool)
    → message_name source given ≡ ok name
    → dispatch_message g l source message given ≡ ok (sent, k)
    → Stages g l source message name sent k
unfolding dispatch_message
dispatch_message-Stages g l k source message given name sent e h =
    let whole = rw e at h in
    let a = bind-eq-ok (dispatch_to g source message name name l.messages) _ whole in
    let b = bind-eq-ok (dispatch_to g source message name (codes "*") a.0.1) _ a.2 in
    let c =
      bind-eq-ok
        (if is_empty name
          then dispatch_to g source message name (codes "?") b.0.1
          else ok (false, b.0.1))
        _ b.2 in
    record {
      named = a.0;
      generic = b.0;
      unnamed = c.0;
      to_named = a.1;
      to_generic = b.1;
      to_unnamed = c.1;
      sends = ground arith;
      ends = ground arith;
      keeps = ground arith;
    }

-- A message that is dispatched without an error has a receiver if and only if some delegate that
-- `check_send` accepts listens under its name, under "*", or, for a message without a name, under "?".
pub dispatch_message-hears :
    (g : Messenger) (l k : LocalMessenger) (source : Module) (message : BaseMessage)
    (given name : Str) (sent : Bool)
    → message_name source given ≡ ok name
    → dispatch_message g l source message given ≡ ok (sent, k)
    → sent ≡ (
        hears g source message name
        || hears g source message (codes "*")
        || (is_empty name && hears g source message (codes "?")))
dispatch_message-hears g l k source message given name sent e h = ground (
  arith,
  s.sends,
  dispatch_to-sent g source message name name l.messages s.named s.to_named,
  dispatch_to-sent g source message name (codes "*") s.named.1 s.generic s.to_generic,
  last,
)
  where
    s : Stages g l source message name sent k
    s = dispatch_message-Stages g l k source message given name sent e h

    last : s.unnamed.0 ≡ (is_empty name && hears g source message (codes "?"))
    last = elim (Bool-cases (is_empty name)) [
      | inl f ↦ rw f (
          dispatch_to-sent g source message name (codes "?") s.generic.1 s.unnamed
            (rw f at s.to_unnamed))
      | inr f ↦ ground (arith, s.to_unnamed)
    ]
