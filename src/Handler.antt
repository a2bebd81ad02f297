-- ===== src/Handler.antt =====
-- gateway/include/MessageHandler.h and gateway/src/MessageHandler.cpp: handlers by message type. A handler gets the
-- message and the user, and returns the reply and the state that it leaves.
use distributed_im.Common.{◌≡◌, refl, List, [], none, some, Bytes}
use distributed_im.Common.Assoc.{find, insert, bytes_discrete}

abbrev pub Handler : Type 0 → Type 0
Handler S = Bytes → Bytes → S → Bytes × S

module _ {S : Type 0} where
  unfoldable pub register_handler :
      Bytes → Handler S → List (Bytes × Handler S) → List (Bytes × Handler S)
  register_handler type handler handlers = insert bytes_discrete type handler handlers

  -- No reply, and nothing done, for a type without a handler.
  unfoldable pub handle : List (Bytes × Handler S) → Bytes → Bytes → Bytes → S → Bytes × S
  handle handlers type msg username s = elim (find bytes_discrete type handlers) [
    | none ↦ ([], s)
    | some handler ↦ handler msg username s
  ]

  -- The handler that is found is the one that is called.
  pub handle-find :
      (handlers : List (Bytes × Handler S)) (type msg username : Bytes) (handler : Handler S)
      (s : S)
      → find bytes_discrete type handlers ≡ some handler
      → handle handlers type msg username s ≡ handler msg username s
  unfolding handle
  handle-find handlers type msg username handler s e = rw (e, handle) refl
