-- ===== src/Tests/Http.antt =====
-- The request that follows redirections.
use linux_network_programmin.Base.{◌≡◌, ◌≤◌, ◌⊎◌, refl, [], ◌++◌, some, length, drop}
use linux_network_programmin.Sys.{Bytes}
use linux_network_programmin.Sys.Loop.{Total}
use linux_network_programmin.Sys.Partial.{Partial}
use linux_network_programmin.CString.{text}
use linux_network_programmin.CString.Search.{strstr, strstr-first}
use linux_network_programmin.Redirect.Location.{location, moved, location_key, crlf, location-split}
use linux_network_programmin.Redirect.Transfer.{message_size, send_loop, recv_loop}
use linux_network_programmin.Redirect.Transfer.Laws.{
  wire, read, SendFailed, ReadEnded, send_loop_lem, recv_loop_lem,
}
use linux_network_programmin.Tests.Systems.{quitting, quitting-SendsWithin}

abbrev redirection : Bytes
redirection =
    text "HTTP/1.1 " ++ (moved ++ (crlf ++ (location_key ++ (text "a.b" ++ (crlf ++ text "X: y")))))

location_host : location redirection ≡ some (text "a.b")
unfolding location strstr
location_host = refl

location-split_example :
    (a : Bytes) × (b : Bytes) × (v : Bytes) × (w : Bytes) × (redirection ≡ a ++ (moved ++ b))
    × (redirection ≡ v ++ (location_key ++ (text "a.b" ++ (crlf ++ w))))
location-split_example = location-split redirection location_host

strstr-first_example :
    (u : Bytes) × (strstr (text "xab" ++ (text "ab" ++ text "c")) (text "ab") ≡ some u)
    × (length (text "ab" ++ text "c") ≤ length u)
strstr-first_example = strstr-first (text "xab") (text "ab") (text "c")

send_loop_lem_example :
    Total
      (λ r t'.
        (r ≤ 3) × (wire 3 t' ++ drop r (text "GET") ≡ text "GET") × ((r ≡ 3) ⊎ SendFailed t'))
      (send_loop quitting 3 3 (text "GET") 0 [])
send_loop_lem_example = send_loop_lem quitting quitting-SendsWithin 3 (text "GET") []

recv_loop_lem_example :
    Total
      (λ r t'. (read 3 t' ≡ r) × (length r ≤ message_size) × ReadEnded t')
      (recv_loop quitting 1025 3 [] [])
recv_loop_lem_example = recv_loop_lem quitting 3 []
