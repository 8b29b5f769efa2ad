-- ===== src/SessionManager/Receipts.antt =====
-- A session of src/server/session-manager.ts from its creation through all output of its terminal.
use connexin.Prelude.{ℕ, refl, inl, List, [], ◌∷◌, arith}
use connexin.Utf8.{Text}
use connexin.BoundedTextBuffer.{new_buffer, to_string}
use connexin.BoundedTextBuffer.Append.{new_buffer-IsValid}
use connexin.SessionManager.Session.{ConnexinSession, ConnexinPublicSession, receive_output}
use connexin.SessionManager.Manager.{World, Manager}
use connexin.SessionManager.Create.{new_session}
use connexin.SessionManager.Output.{HasReceived, remember, receive_output-HasReceived, chunks_of}

-- The texts that the terminal hands to the listener, in their order.
unfoldable pub receive_all : ℕ → ConnexinSession → List Text → ConnexinSession
receive_all limit session [] = session
receive_all limit session (text ∷ texts) =
    receive_all limit (receive_output limit session text) texts

abbrev pub remember_all : List Text → List Text → List Text
remember_all writes [] = writes
remember_all writes (text ∷ texts) = remember_all (remember writes text) texts

new_session-HasReceived :
    (w : World) (m : Manager) (summary : ConnexinPublicSession)
    → HasReceived m.config.max_scrollback_bytes [] (new_session w m summary)
unfolding new_session chunks_of to_string new_buffer
new_session-HasReceived w m summary = record {
  gone = 0;
  fewer = omega arith;
  chunks = refl;
  numbered = refl;
  counted = refl;
  within = omega arith;
  few = omega arith;
  newest = inl refl;
  scrollback_limit = refl;
  scrolled = [];
  scrollback_suffix = refl;
  scrollback_valid = new_buffer-IsValid m.config.max_scrollback_bytes;
}

later-HasReceived :
    (limit : ℕ) (writes : List Text) (session : ConnexinSession) (texts : List Text)
    → HasReceived limit writes session
    → HasReceived limit (remember_all writes texts) (receive_all limit session texts)
unfolding receive_all
later-HasReceived limit writes session [] r = r
later-HasReceived limit writes session (text ∷ texts) r =
    later-HasReceived limit (remember writes text) (receive_output limit session text) texts
      (receive_output-HasReceived limit writes session text r)

-- A new session that has been handed any texts holds their true tail: the chunks of the newest
-- non-empty texts, numbered from 1 without a gap, within both limits, and a scrollback that is a
-- suffix of all output.
pub receive_all-HasReceived :
    (w : World) (m : Manager) (summary : ConnexinPublicSession) (texts : List Text)
    → let limit = m.config.max_scrollback_bytes in
      HasReceived limit (remember_all [] texts) (receive_all limit (new_session w m summary) texts)
receive_all-HasReceived w m summary texts =
    later-HasReceived m.config.max_scrollback_bytes [] (new_session w m summary) texts
      (new_session-HasReceived w m summary)
