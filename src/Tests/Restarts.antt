-- ===== src/Tests/Restarts.antt =====
-- A restart of a server with one session.
use bmcweb.Prelude.{◌≡◌, ◌≢◌, refl, none, some, [], codes}
use bmcweb.Persistence.{Persistent, read_data, write_data, file_after}
use bmcweb.Persistence.RoundTrip.{IsRestored, blank, read_data-shut_down}
use bmcweb.Tests.Data.{one_session, one_session-IsIndexed}

abbrev system : Persistent
system = record { system_uuid = codes "5c42"; store = one_session }

-- A server with no file makes up an identifier and writes it.
first_start :
    (read_data 5 (codes "5c42") none blank).1
    ≡ some (write_data (record blank { system_uuid = codes "5c42" }))
unfolding read_data
first_start = refl

token : codes "0123456789ABCDEFGHIJ" ≢ []
token e = absurd (cc)

read_data-shut_down_example :
    IsRestored 5
      (codes "0123456789ABCDEFGHIJ")
      system
      (read_data 5 [] (file_after none system) blank)
read_data-shut_down_example =
    read_data-shut_down 5 [] (codes "0123456789ABCDEFGHIJ") none system one_session-IsIndexed refl
      token
