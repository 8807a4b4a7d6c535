-- ===== src/Tests/Gateway.antt =====
-- src/gateway/smtp-gateway.js at concrete inputs.
use chainmail_protocol.Base.{◌≡◌, List, [], ◌∷◌, Text, codes}
use chainmail_protocol.Base.Database.{Db}
use chainmail_protocol.Gateway.{Mapping, on_rcpt_to}
use chainmail_protocol.Gateway.Cache.{
  Call, registers, looks_up, receives, loads, restarts, run, expected, on_rcpt_to-run,
}
use chainmail_protocol.Tests.Entries.{entry_list, entry_list_laws}
use chainmail_protocol.Tests.Texts.{signing}

abbrev db : Db Mapping
db = entry_list

abbrev domain : Text
domain = codes "dmail.network"

abbrev calls : List Call
calls =
    registers (codes "Bob") (codes "dm1b") 400
    ∷ restarts
    ∷ loads
    ∷ receives (codes "bob@dmail.network")
    ∷ looks_up (codes "eve")
    ∷ []

on_rcpt_to-run_example :
    (on_rcpt_to signing db domain
      (codes "BOB@dmail.network")
      (run signing db entry_list_laws domain ([], []) calls)).1
    ≡ expected signing db entry_list_laws domain
        (codes "BOB@dmail.network")
        (run signing db entry_list_laws domain ([], []) calls).1
on_rcpt_to-run_example =
    on_rcpt_to-run signing db entry_list_laws domain (codes "BOB@dmail.network") calls []
