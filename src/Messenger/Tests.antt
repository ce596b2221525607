-- ===== src/Messenger/Tests.antt =====
-- Runs of the messenger, and its theorems at one with two receivers.
use allpix_fork.Base.{
  all, ◌≡◌, refl, Bool, true, false, ◌||◌, ◌&&◌, [], ◌∷◌, ◌++◌, none, some, Str, codes, equal,
  lookup, ok, err, inl, unexpected_message,
}
use allpix_fork.Config.{Configuration}
use allpix_fork.Messenger.{
  TypeIndex, base_message, BaseMessage, Module, MsgFlags, single_bind, vector_bind, BaseDelegate,
  no_messages, Messenger, LocalMessenger, setting, has_receiver, process, dispatch_message,
  message_name, is_empty,
}
use allpix_fork.Messenger.Registry.{
  listened_name, add_delegate, remove_delegate, is_satisfied, check_delegates,
}
use allpix_fork.Messenger.Fetch.{fetch_multi_message}
use allpix_fork.Messenger.Send.{listeners, hears, dispatch_message-hears}
use allpix_fork.Messenger.Receiver.{has_receiver-dispatch_message}
use allpix_fork.Messenger.Delivery.{stored, takers, process_all, offered, dispatch_message-stored}
use allpix_fork.Messenger.Satisfied.{ready, check_delegates-dispatch_message}
use allpix_fork.Messenger.Register.{remove_delegate-add_delegate}
use allpix_fork.Config.Value.{parse_value, step}
use allpix_fork.Text.{trim_with}
use allpix_fork.Base.{before, elem, find, find_first_not_of, find_last_not_of, substr}
use allpix_fork.Config.Access.{convert_value}
use allpix_fork.Messenger.{at_both}
use allpix_fork.Messenger.Registry.{satisfied_by}

abbrev conf : Str → Configuration
conf name = record {
  name = name;
  path = [];
  config = (codes "input", codes "\"\"") ∷ (codes "output", codes "\"\"") ∷ [];
  used_keys = (codes "input", false) ∷ (codes "output", false) ∷ [];
}

abbrev module_named : Str → Module
module_named name = record { unique_name = name; detector = none; configuration = conf name }

abbrev source : Module
source = module_named (codes "S")

abbrev receiver : Module
receiver = module_named (codes "R")

abbrev flags : Bool → MsgFlags
flags unnamed = record {
  required = true;
  allow_overwrite = false;
  ignore_name = false;
  unnamed_only = unnamed;
}

-- One delegate for the unnamed messages of a type.
abbrev unnamed_hits : BaseDelegate
unnamed_hits = record { id = 1; flags = flags true; obj = receiver; kind = vector_bind }

abbrev hits : TypeIndex
hits = codes "PixelHit"

abbrev message : BaseMessage
message = record { id = 5; type = hits; detector = some (codes "d1") }

abbrev messenger : Messenger
messenger = record {
  delegates = (hits, (codes "?", unnamed_hits ∷ []) ∷ []) ∷ [];
  delegate_to_iterator = (1, hits, codes "?") ∷ [];
}

abbrev no_local : LocalMessenger
no_local = record { messages = []; sent_messages = [] }

abbrev received : LocalMessenger
received = record {
  messages = (codes "R", (hits, record no_messages { multi = message ∷ [] }) ∷ []) ∷ [];
  sent_messages = message ∷ [];
}

output_name : setting source (codes "output") ≡ ok []
unfolding setting lookup equal parse_value trim_with find_first_not_of elem find_last_not_of substr
    step convert_value find
output_name = refl

dispatch : dispatch_message messenger no_local source message (codes "-") ≡ ok (true, received)
unfolding dispatch_message equal parse_value trim_with find_first_not_of elem find_last_not_of
    substr step convert_value find
dispatch = refl

name_of_it : message_name source (codes "-") ≡ ok []
unfolding message_name equal lookup parse_value trim_with find_first_not_of elem find_last_not_of
    substr step convert_value find
name_of_it = refl

abbrev searched : Messenger
searched = record messenger {
  delegates =
      (base_message, ([], []) ∷ (codes "*", []) ∷ [])
      ∷ (hits, ([], []) ∷ (codes "*", []) ∷ (codes "?", unnamed_hits ∷ []) ∷ [])
      ∷ [];
}

nobody : has_receiver messenger source message ≡ ok (false, searched)
unfolding has_receiver equal parse_value trim_with find_first_not_of elem find_last_not_of substr
    step convert_value find before
nobody = refl

satisfied : is_satisfied messenger received unnamed_hits ≡ ok true
unfolding is_satisfied lookup equal satisfied_by
satisfied = refl

fetched : fetch_multi_message received receiver hits ≡ ok (message ∷ [])
unfolding fetch_multi_message lookup equal
fetched = refl

twice :
    process
      (record unnamed_hits { kind = single_bind })
      message
      []
      (record no_messages { single = some message })
    ≡ err (unexpected_message (codes "R"))
unfolding process
twice = refl

dispatch_message-hears_example : true ≡ (
    hears messenger source message []
    || hears messenger source message (codes "*")
    || (is_empty [] && hears messenger source message (codes "?")))
dispatch_message-hears_example =
    dispatch_message-hears messenger no_local received source message (codes "-") [] true name_of_it
      dispatch

has_receiver-dispatch_message_example :
    true ≡ (false || (is_empty [] && hears messenger source message (codes "?")))
has_receiver-dispatch_message_example =
    has_receiver-dispatch_message messenger searched no_local received source message [] false true
      output_name nobody dispatch

dispatch_message-stored_example :
    (process_all message []
        (takers (codes "R") source message (offered messenger hits []))
        (stored (codes "R") hits no_local.messages)
      ≡ ok (stored (codes "R") hits received.messages))
    × (received.sent_messages ≡ no_local.sent_messages ++ (message ∷ []))
unfolding equal
dispatch_message-stored_example =
    dispatch_message-stored messenger no_local received source message (codes "-") [] (codes "R")
      hits true refl (inl refl) name_of_it dispatch

abbrev all_hits : BaseDelegate
all_hits = record { id = 2; flags = flags false; obj = receiver; kind = vector_bind }

input_name : listened_name all_hits receiver ≡ ok []
unfolding listened_name lookup equal parse_value trim_with find_first_not_of elem find_last_not_of
    substr step convert_value find
input_name = refl

remove_delegate-add_delegate_example :
    (h : Messenger) × (add_delegate messenger hits receiver all_hits ≡ ok h)
    × (listeners h hits [] ≡ listeners messenger hits [] ++ (all_hits ∷ []))
    × (r : Messenger) × (remove_delegate h 2 ≡ ok r)
    × ((u k : Str) → listeners r u k ≡ listeners messenger u k)
    × (r.delegate_to_iterator ≡ messenger.delegate_to_iterator)
unfolding lookup equal at_both
remove_delegate-add_delegate_example =
    remove_delegate-add_delegate messenger hits receiver all_hits [] input_name refl refl

-- The receiver requires a message, and runs once it is there.
not_yet : check_delegates messenger no_local (unnamed_hits ∷ []) ≡ ok false
unfolding check_delegates satisfied_by lookup
not_yet = refl

now_ready : check_delegates messenger received (unnamed_hits ∷ []) ≡ ok true
unfolding check_delegates satisfied_by lookup equal
now_ready = refl

check_delegates-dispatch_message_example :
    check_delegates messenger received (unnamed_hits ∷ [])
    ≡ ok (all (ready messenger no_local source message []) (unnamed_hits ∷ []))
unfolding equal
check_delegates-dispatch_message_example =
    check_delegates-dispatch_message messenger no_local received source message (codes "-") [] true
      (unnamed_hits ∷ []) refl ((refl, inl refl), tt) name_of_it dispatch
