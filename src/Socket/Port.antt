-- ===== src/Socket/Port.antt =====
-- `sprintf(port_server, "%d", htons(TCP_PORT))` into `char port_server[6]`.
use linux_network_programmin.Base.{
  ℕ, suc, ◌+◌, ◌*◌, ◌/◌, ◌%◌, ◌<◌, ◌≡◌, ap, ◌∙◌, Option, none, some, arith, length,
  length-replicate, drop, ◌∷◌, ◌++◌,
}
use linux_network_programmin.Sys.{Bytes}
use linux_network_programmin.CString.{text, zeroed, c_string}
use linux_network_programmin.CString.Laws.{c_string-append-zero}
use linux_network_programmin.CString.Decimal.{
  decimal, sprintf, digits_value, digits_value-decimal, length-decimal, upto_nul-decimal,
}

-- `htons` on a little-endian host: the two bytes change places.
abbrev pub htons : ℕ → ℕ
htons n = n % 256 * 256 + n / 256

-- HOST_NAME
abbrev pub host_name : Bytes
host_name = text "localhost"

abbrev pub tcp_port : ℕ
tcp_port = 45123

-- The text that `getaddrinfo` is given for a port.
unfoldable pub port_text : ℕ → Option Bytes
port_text port = elim (sprintf (zeroed 6) (decimal (htons port))) [
  | none ↦ none
  | some buffer ↦ c_string buffer
]

sprintf-decimal :
    (size n : ℕ)
    → length (decimal n) < size
    → sprintf (zeroed size) (decimal n)
      ≡ some (decimal n ++ (0 ∷ drop (suc (length (decimal n))) (zeroed size)))
unfolding sprintf zeroed
sprintf-decimal size n h = ground (arith, length-replicate {A = ℕ} size 0)

-- The text of every 16-bit port fits the six bytes of the array, NUL included, and names the port
-- with its two bytes exchanged, a 16-bit port again; exchanging them once more gives the port back.
pub port_text_lem :
    (port : ℕ)
    → port < 65536
    → (port_text port ≡ some (decimal (htons port)))
      × (digits_value 0 (decimal (htons port)) ≡ htons port)
      × (htons port < 65536)
      × (htons (htons port) ≡ port)
unfolding port_text
port_text_lem port h = (fits, digits_value-decimal (htons port), omega arith, omega arith)
  where
    short : length (decimal (htons port)) < 6
    short = omega (arith, length-decimal 4 (htons port) (omega arith))

    fits : port_text port ≡ some (decimal (htons port))
    fits =
        rw (sprintf-decimal 6 (htons port) short, port_text)
          (c_string-append-zero _ _ ∙ ap some (upto_nul-decimal (htons port)))
