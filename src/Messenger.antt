-- ===== src/Messenger.antt =====
-- src/core/messenger: the registration of delegates (`Messenger`), and the messages of one event
-- (`LocalMessenger`). A pointer to a delegate is its number, a type index the name of the type; both
-- unordered maps are dictionaries, as nothing reads their order. `output` and `input` of a module's
-- configuration are read by `get`; that this marks them as used is not kept here. Log output is left out.
pub mod Registry
pub mod Fetch
pub mod Send
pub mod Receiver
pub mod Delivery
pub mod Register
pub mod Satisfied
mod Tests
use allpix_fork.Base.{
  ℕ, Bool, true, false, not, ◌&&◌, ◌||◌, List, [], ◌∷◌, ◌++◌, Option, none, some, ◌==◌,
  if◌then◌else◌, Str, codes, equal, Dict, lookup, insert, is_some, Result, ok, err, ◌>>=◌, catch,
  Error, out_of_range, unexpected_message, message_not_found,
}
use allpix_fork.Text.{from_string_str}
use allpix_fork.Config.{Configuration}
use allpix_fork.Config.Access.{get}

abbrev pub TypeIndex : Type 0
TypeIndex = Str

-- `typeid(BaseMessage)`, under the name that the Itanium ABI gives it.
abbrev pub base_message : TypeIndex
base_message = codes "N6allpix11BaseMessageE"

-- `detector` is the name of the linked detector.
pub record BaseMessage : Type 0 where
  pub id : ℕ
  pub type : TypeIndex
  pub detector : Option Str

pub record Module : Type 0 where
  pub unique_name : Str
  pub detector : Option Str
  pub configuration : Configuration

-- The set of flags, one field for each bit.
pub record MsgFlags : Type 0 where
  pub required : Bool
  pub allow_overwrite : Bool
  pub ignore_name : Bool
  pub unnamed_only : Bool

-- The classes of delegates, with the filter functions of the first two.
pub data Kind : Type 0 where
  filter : (BaseMessage → Bool) → Kind
  filter_all : (BaseMessage → Str → Bool) → Kind
  single_bind vector_bind : Kind

pub record BaseDelegate : Type 0 where
  pub id : ℕ
  pub flags : MsgFlags
  pub obj : Module
  pub kind : Kind

pub record DelegateTypes : Type 0 where
  pub single : Option BaseMessage
  pub multi : List BaseMessage
  pub filter_multi : List (BaseMessage × Str)

abbrev pub no_messages : DelegateTypes
no_messages = record { single = none; multi = []; filter_multi = [] }

pub record Messenger : Type 0 where
  pub delegates : Dict (Dict (List BaseDelegate))
  pub delegate_to_iterator : List (ℕ × TypeIndex × Str)

pub record LocalMessenger : Type 0 where
  pub messages : Dict (Dict DelegateTypes)
  pub sent_messages : List BaseMessage

abbrev pub or_empty {ℓ} : {A : Type ℓ} → Option (List A) → List A
or_empty none = []
or_empty (some xs) = xs

abbrev pub or_none : Option DelegateTypes → DelegateTypes
or_none none = no_messages
or_none (some d) = d

-- `m[t][n]` as it is read.
unfoldable pub at_both {ℓ} : {A : Type ℓ} → Str → Str → Dict (Dict A) → Option A
unfolding lookup
at_both t n m = lookup n (or_empty (lookup t m))

-- `m[t][n] = a`.
unfoldable pub put_both {ℓ} : {A : Type ℓ} → Str → Str → A → Dict (Dict A) → Dict (Dict A)
unfolding lookup insert
put_both t n a m = insert t (insert n a (or_empty (lookup t m))) m

-- The detectors of a delegate and a message match: a delegate without one takes every message.
abbrev pub same_detector : Option Str → Option Str → Bool
same_detector none message = true
same_detector (some d) none = false
same_detector (some d) (some m) = equal d m

unfoldable pub check_send : Module → BaseMessage → BaseDelegate → Bool
check_send source message delegate =
    same_detector delegate.obj.detector message.detector
    && not (equal delegate.obj.unique_name source.unique_name)

abbrev pub any_send : Module → BaseMessage → List BaseDelegate → Bool
any_send source message [] = false
any_send source message (d ∷ ds) = check_send source message d || any_send source message ds

-- `get_configuration().get<std::string>(key)`.
unfoldable pub setting : Module → Str → Result Str
unfolding get from_string_str
setting m key = get from_string_str m.configuration key >>= λ r. ok r.0

-- `delegates_[t][n]`, which adds an empty entry where there is none.
unfoldable pub subscript : Messenger → TypeIndex → Str → List BaseDelegate × Messenger
unfolding at_both put_both
subscript g t n =
    let ds = or_empty (at_both t n g.delegates) in
    (ds, record g { delegates = put_both t n ds g.delegates })

-- The loops of `hasReceiver` over the four lists, which stop at the first receiver.
abbrev pub search_lists :
    Module → BaseMessage → Messenger → List (TypeIndex × Str) → Bool × Messenger
search_lists source message g [] = (false, g)
search_lists source message g ((t, n) ∷ rest) =
    let (ds, h) = subscript g t n in
    let later = search_lists source message h rest in
    if any_send source message ds then (true, h) else later

-- `hasReceiver(source, message)`.
unfoldable pub has_receiver : Messenger → Module → BaseMessage → Result (Bool × Messenger)
unfolding setting check_send subscript
has_receiver g source message = setting source (codes "output") >>= λ name. ok (
    search_lists source message g (
      (message.type, name)
      ∷ (message.type, codes "*")
      ∷ (base_message, name)
      ∷ (base_message, codes "*")
      ∷ []))

-- `process(message, name, dest)` of the classes of delegates.
unfoldable pub process : BaseDelegate → BaseMessage → Str → DelegateTypes → Result DelegateTypes
process d message name dest = elim d.kind [
  | filter f ↦
      if f message
      then ok (record dest { filter_multi = dest.filter_multi ++ ((message, []) ∷ []) })
      else ok dest
  | filter_all f ↦
      if f message name
      then ok (record dest { filter_multi = dest.filter_multi ++ ((message, name) ∷ []) })
      else ok dest
  | single_bind ↦
      if is_some dest.single && not d.flags.allow_overwrite
      then err (unexpected_message d.obj.unique_name)
      else ok (record dest { single = some message })
  | vector_bind ↦ ok (record dest { multi = dest.multi ++ (message ∷ []) })
]

-- The loop over the listeners in one list; `t` is the type under which they store the message.
unfoldable pub deliver :
    Module
    → BaseMessage
    → Str
    → TypeIndex
    → List BaseDelegate
    → Dict (Dict DelegateTypes)
    → Result (Bool × Dict (Dict DelegateTypes))
unfolding process at_both put_both check_send
deliver source message name t [] m = ok (false, m)
deliver source message name t (d ∷ ds) m =
    if check_send source message d
    then (process d message name (or_none (at_both d.obj.unique_name t m)) >>= λ dest.
        deliver source message name t ds (put_both d.obj.unique_name t dest m) >>= λ r.
        ok (true, r.1))
    else deliver source message name t ds m

-- `dispatchMessage(source, message, name, id)`.
unfoldable pub dispatch_to :
    Messenger
    → Module
    → BaseMessage
    → Str
    → Str
    → Dict (Dict DelegateTypes)
    → Result (Bool × Dict (Dict DelegateTypes))
unfolding deliver at_both
dispatch_to g source message name id m =
    deliver source message name message.type (or_empty (at_both message.type id g.delegates)) m
    >>= λ r.
        deliver source message name base_message (or_empty (at_both base_message id g.delegates))
          r.1
        >>= λ s. ok (r.0 || s.0, s.1)

-- The name of a message: "-" stands for the `output` of the module.
unfoldable pub message_name : Module → Str → Result Str
unfolding setting
message_name source name =
    if equal name (codes "-") then setting source (codes "output") else ok name

abbrev pub is_empty : Str → Bool
is_empty [] = true
is_empty (c ∷ cs) = false

-- `dispatchMessage(source, message, name)`: the result says whether the message had a receiver, which
-- the program only logs.
unfoldable pub dispatch_message :
    Messenger → LocalMessenger → Module → BaseMessage → Str → Result (Bool × LocalMessenger)
unfolding message_name dispatch_to
dispatch_message g l source message given = message_name source given >>= λ name.
    dispatch_to g source message name name l.messages >>= λ r.
    dispatch_to g source message name (codes "*") r.1 >>= λ s.
    (if is_empty name then dispatch_to g source message name (codes "?") s.1 else ok (false, s.1))
    >>= λ u. ok (
      r.0 || s.0 || u.0,
      record { messages = u.1; sent_messages = l.sent_messages ++ (message ∷ []) },
    )
