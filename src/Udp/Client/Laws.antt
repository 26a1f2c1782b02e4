-- ===== src/Udp/Client/Laws.antt =====
-- Where the requests of the datagram client go, and what it leaves open.
use linux_network_programmin.Base.{
  ℕ, ◌-◌, ◌<◌, ◌≡◌, refl, pos, true, [], ◌∷◌, some, arith, if◌then◌else◌, length, take, length-take,
  take_of_length_le, ◌==◌,
}
use linux_network_programmin.Sys.{Bytes, Kernel, Event, Trace, ok, fgets, recvfrom, sendto}
use linux_network_programmin.Sys.Loop.{running, stopped}
use linux_network_programmin.CString.Laws.{received_text-short}
use linux_network_programmin.Session.{is_stop}
use linux_network_programmin.Client.{command, sent_all}
use linux_network_programmin.Client.Laws.{line_text, command_lem}
use linux_network_programmin.Udp.{message_size}
use linux_network_programmin.Udp.Client.{responded, client_round}

-- The bytes that `fgets` and the cut at the end of line leave of a line.
abbrev pub request_of : Bytes → Bytes
request_of line = line_text (take (message_size - 1) line)

pub command-request_of :
    (line : Bytes) → command (some (take (message_size - 1) line)) ≡ some (request_of line)
command-request_of line =
    command_lem (take (message_size - 1) line) (omega (arith, length-take (message_size - 1) line))

module _ (os : Kernel) (fd addr : ℕ) where
  responded_lem :
      (request bytes : Bytes) (sender : ℕ) (t : Trace)
      → 0 < length bytes
      → length bytes < message_size
      → responded os request addr (some (bytes, sender)) t
        ≡ ok (if is_stop request then stopped sender else running sender) t
  unfolding responded
  responded_lem request [] sender t h k = absurd (omega arith)
  responded_lem request (b ∷ bytes) sender t h k =
      rw (received_text-short message_size (b ∷ bytes) k, responded) refl

  -- A round of the datagram client sends its line, cut at the first NUL, carriage return or line
  -- feed, to its address. If all of it was sent, the next datagram that comes, from wherever,
  -- makes its sender the address of all further requests; the loop ends exactly for "exit", "quit"
  -- and "shutdown". (The datagram is not empty and does not fill the buffer.)
  pub client_round-redirected :
      (line bytes : Bytes) (sender : ℕ) (t : Trace)
      → os.on_fgets t ≡ some line
      → os.on_sendto
          (Event.fgets (message_size - 1) (some (take (message_size - 1) line)) ∷ t)
          fd
          (request_of line)
          addr
        ≡ pos (length (request_of line))
      → os.on_recvfrom
          (Event.sendto fd (request_of line) addr (pos (length (request_of line)))
            ∷ Event.fgets (message_size - 1) (some (take (message_size - 1) line))
            ∷ t)
          fd
        ≡ some (bytes, sender)
      → 0 < length bytes
      → length bytes < message_size
      → client_round os fd addr t
        ≡ ok (if is_stop (request_of line) then stopped sender else running sender) (
            Event.recvfrom fd message_size (some (bytes, sender))
            ∷ Event.sendto fd (request_of line) addr (pos (length (request_of line)))
            ∷ Event.fgets (message_size - 1) (some (take (message_size - 1) line))
            ∷ t)
  unfolding client_round fgets sendto recvfrom sent_all
  client_round-redirected line bytes sender t typed sent came h k =
      rw
        (
          typed,
          command-request_of line,
          client_round,
          sent,
          same_length,
          came,
          take_of_length_le message_size bytes (omega arith),
        )
        (responded_lem (request_of line) bytes sender _ h k)
    where
      same_length : (length (request_of line) == length (request_of line)) ≡ true
      same_length = ground arith
