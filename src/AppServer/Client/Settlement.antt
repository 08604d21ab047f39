-- ===== src/AppServer/Client/Settlement.antt =====
-- A request, its response, and a response that comes again.
use af_companion.Prelude.{String, ◌≡◌, true, false, List, not, ◌&&◌}
use af_companion.Prelude.StringMap.{has}
use af_companion.Json.{Json, read}
use af_companion.AppServer.Errors.{Failure}
use af_companion.AppServer.Client.State.{Client, Effect, resolved, rejected}

-- what settles the request, given the fields of its response: its result where it has one and no
-- error, and some failure otherwise
abbrev pub Settles : String → List (String × Json) → Effect → Type 0
Settles id message e =
    ((has "result" message && not (has "error" message)) ≡ true
      → e ≡ resolved id (read "result" message))
    × ((has "result" message && not (has "error" message)) ≡ false
        → (f : Failure) × (e ≡ rejected id f))
