-- ===== src/Messenger/Fetch.antt =====
-- src/core/messenger/Messenger.tpp: what a module fetches from the messages of an event.
use allpix_fork.Base.{
  List, [], Option, none, some, Str, Result, ok, err, ◌>>=◌, catch, Error, out_of_range,
  message_not_found,
}
use allpix_fork.Messenger.{
  TypeIndex, base_message, BaseMessage, Module, DelegateTypes, LocalMessenger, at_both,
}

-- `messages_.at(name).at(type)`.
abbrev pub at_messages : Option DelegateTypes → Result DelegateTypes
at_messages none = err out_of_range
at_messages (some d) = ok d

-- The handler of `fetchMessage` and `fetchMultiMessage`.
abbrev pub not_found {ℓ} : {A : Type ℓ} → Module → Error → Result A
not_found m out_of_range = err (message_not_found m.unique_name)
not_found m e = err e

-- `fetchMessage<T>(module)`: the pointer is null where no message has been stored.
unfoldable pub fetch_message : LocalMessenger → Module → TypeIndex → Result (Option BaseMessage)
unfolding at_both
fetch_message l m t =
    catch (at_messages (at_both m.unique_name t l.messages) >>= λ d. ok d.single) (not_found m)

unfoldable pub fetch_multi_message : LocalMessenger → Module → TypeIndex → Result (List BaseMessage)
unfolding at_both
fetch_multi_message l m t =
    catch (at_messages (at_both m.unique_name t l.messages) >>= λ d. ok d.multi) (not_found m)

abbrev pub filtered : Option DelegateTypes → List (BaseMessage × Str)
filtered none = []
filtered (some d) = d.filter_multi

unfoldable pub fetch_filtered_messages : LocalMessenger → Module → List (BaseMessage × Str)
unfolding at_both
fetch_filtered_messages l m = filtered (at_both m.unique_name base_message l.messages)
