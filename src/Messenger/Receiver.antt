-- ===== src/Messenger/Receiver.antt =====
-- `hasReceiver` of Messenger.cpp, compared with the dispatch of the same message.
use allpix_fork.Base.{
  ◌≡◌, refl, ap, ◌∙◌, Bool, false, ◌&&◌, ◌||◌, List, [], ◌∷◌, Str, codes, equal, equal_iff, lookup,
  ok, arith, Bool-cases, inl, inr,
}
use allpix_fork.Messenger.{
  TypeIndex, base_message, BaseMessage, Module, Messenger, LocalMessenger, any_send, setting,
  subscript, search_lists, has_receiver, message_name, is_empty, dispatch_message,
}
use allpix_fork.Messenger.Send.{at_both-put_both, listeners, hears, dispatch_message-hears}

-- The empty entries that `hasReceiver` adds change no list of listeners.
subscript-listeners :
    (g : Messenger) (t n u k : Str) → listeners (subscript g t n).1 u k ≡ listeners g u k
unfolding subscript
subscript-listeners g t n u k =
    rw (at_both-put_both t n u k (listeners g t n) g.delegates)
      (elim (Bool-cases (equal t u && equal n k)) [
        | inl e ↦
            let same : t ≡ u = (equal_iff t u).0 (ground arith) in
            let like : n ≡ k = (equal_iff n k).0 (ground arith) in
            rw e (ap (λ v. listeners g v n) same ∙ ap (λ v. listeners g u v) like)
        | inr e ↦ rw e refl
      ])

abbrev any_hears : Module → BaseMessage → Messenger → List (TypeIndex × Str) → Bool
any_hears source message g [] = false
any_hears source message g ((t, n) ∷ rest) =
    any_send source message (listeners g t n) || any_hears source message g rest

any_hears-subscript :
    (source : Module) (message : BaseMessage) (g : Messenger) (t n : Str)
    (ps : List (TypeIndex × Str))
    → any_hears source message (subscript g t n).1 ps ≡ any_hears source message g ps
any_hears-subscript source message g t n [] = refl
any_hears-subscript source message g t n ((u, k) ∷ ps) = rw (subscript-listeners g t n u k) (
    ap (λ b. any_send source message (listeners g u k) || b)
      (any_hears-subscript source message g t n ps))

subscript-list : (g : Messenger) (t n : Str) → (subscript g t n).0 ≡ listeners g t n
unfolding subscript
subscript-list g t n = refl

search_lists-hears :
    (source : Module) (message : BaseMessage) (g : Messenger) (ps : List (TypeIndex × Str))
    → (search_lists source message g ps).0 ≡ any_hears source message g ps
search_lists-hears source message g [] = refl
search_lists-hears source message g ((t, n) ∷ ps) = ground (
  arith,
  subscript-list g t n,
  ap (any_send source message) (subscript-list g t n),
  search_lists-hears source message (subscript g t n).1 ps,
  any_hears-subscript source message g t n ps,
)

has_receiver-hears :
    (g h : Messenger) (source : Module) (message : BaseMessage) (name : Str) (b : Bool)
    → setting source (codes "output") ≡ ok name
    → has_receiver g source message ≡ ok (b, h)
    → b ≡ (hears g source message name || hears g source message (codes "*"))
unfolding has_receiver
has_receiver-hears g h source message name b e r =
    let found = rw e at r in
    ground (
      arith,
      search_lists-hears source message g (
          (message.type, name)
          ∷ (message.type, codes "*")
          ∷ (base_message, name)
          ∷ (base_message, codes "*")
          ∷ []),
    )

-- When neither throws, `hasReceiver` and `dispatchMessage` of the same message without a name of its own
-- agree for a module whose output has a name. For one whose output has none the dispatch also reaches the
-- listeners of unnamed messages, of which `hasReceiver` knows nothing.
pub has_receiver-dispatch_message :
    (g h : Messenger) (l k : LocalMessenger) (source : Module) (message : BaseMessage) (name : Str)
    (b sent : Bool)
    → setting source (codes "output") ≡ ok name
    → has_receiver g source message ≡ ok (b, h)
    → dispatch_message g l source message (codes "-") ≡ ok (sent, k)
    → sent ≡ (b || (is_empty name && hears g source message (codes "?")))
unfolding message_name equal lookup
has_receiver-dispatch_message g h l k source message name b sent e r d = ground (
  arith,
  has_receiver-hears g h source message name b e r,
  dispatch_message-hears g l k source message (codes "-") name sent e d,
)
