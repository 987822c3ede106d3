-- ===== src/Wasm/Ready.antt =====
-- cmd/wasm/main.go, notifyReady: how the page is told that the engine is ready. What the page's handler
-- does is a parameter; a JavaScript exception arrives as a Go panic.
use crossfault.Prelude.{Option, none, some, [], ◌∷◌, Bytes}

-- The value of a panic, as fmtPanic tells them apart: an error by its text, a string, anything else.
pub data Panic : Type 0 where
  error_value : (text : Bytes) → Panic
  string_value : (text : Bytes) → Panic
  other_value : Panic

-- What is in onCrossfaultReady: a function, by what its call ends in, or no function.
pub data ReadyHandler : Type 0 where
  no_function returns : ReadyHandler
  throws : Panic → ReadyHandler

unfoldable pub fmt_panic : Panic → Bytes
fmt_panic (error_value text) = text
fmt_panic (string_value text) = text
fmt_panic other_value =
    b'u' ∷ b'n' ∷ b'k' ∷ b'n' ∷ b'o' ∷ b'w' ∷ b'n' ∷ b' ' ∷ b'p' ∷ b'a' ∷ b'n' ∷ b'i' ∷ b'c' ∷ []

-- What goes to the console as an error behind the fixed text, if anything does; the engine runs on
-- whatever the handler does.
unfoldable pub notify_ready : ReadyHandler → Option Bytes
unfolding fmt_panic
notify_ready no_function = none
notify_ready returns = none
notify_ready (throws value) = some (fmt_panic value)
