-- ===== src/Broadcast.antt =====
-- 00_tutorials/14_broadcasting.c: a thread that sends a message each second, one that receives,
-- and the loop over the input. The address to bind and the one to send to are parameters.
pub mod Laws
use linux_network_programmin.Base.{
  ℕ, zero, suc, ◌-◌, ℤ, pos, negsuc, is_neg, is_nonzero, is_nonpos, ◌||◌, [], ◌∷◌, ◌++◌, List,
  Option, none, some, if◌then◌else◌,
}
use linux_network_programmin.Sys.{
  Bytes, Kernel, M, pure, ◌>>=◌, ◌>>◌, checked, report_error, socket, setsockopt, bind, recvfrom,
  sendto, sleep, fgets,
}
use linux_network_programmin.Sys.Loop.{Loop, running, stopped, while_true}
use linux_network_programmin.CString.{text, zeroed, fill, same, c_string}
use linux_network_programmin.CString.Decimal.{sprintf}
use linux_network_programmin.Client.{command}

abbrev pub message_size : ℕ
message_size = 1024

-- What the sender says.
abbrev pub broadcast_text : Bytes → Bytes
broadcast_text nick_name = nick_name ++ text " is active"

module _ (os : Kernel) (addr_receiver : ℕ) where
  bound : ℕ → ℤ → M (Option ℕ)
  bound fd rc =
      if is_neg rc
      then (do report_error "bind() failed for receiver"; pure none)
      else pure (some fd)

  receiver_socket : ℤ → M (Option ℕ)
  unfolding bound
  receiver_socket (negsuc n) = do report_error "socket() failed for receiver"; pure none
  receiver_socket (pos fd) = do
    rc ← setsockopt os fd
    if is_nonzero rc
        then (do report_error "setsockopt(SO_REUSEADDR) failed"; pure none)
        else (do rc' ← bind os fd addr_receiver; bound fd rc')

  -- The descriptor, or `none` for -1.
  unfoldable pub setup_broadcast_receiver : M (Option ℕ)
  unfolding receiver_socket
  setup_broadcast_receiver = do fd ← socket os; receiver_socket fd

  received : Option (Bytes × ℕ) → M (Loop (Unit {0}))
  received none = do report_error "Broadcast receiver recvfrom() failed"; pure (running tt)
  received (some ([], sender)) = do
    report_error "Broadcast receiver recvfrom() failed"
    pure (running tt)
  received (some (b ∷ bytes, sender)) = do
    shown ← checked (c_string (fill (zeroed message_size) (b ∷ bytes)))
    pure (running tt)

  unfoldable pub receiver_round : ℕ → Unit {0} → M (Loop (Unit {0}))
  unfolding received
  receiver_round fd _ = do r ← recvfrom os fd message_size; received r

  listening : ℕ → Option ℕ → M (Option (Loop (Unit {0})))
  listening rounds none = do report_error "setup_broadcast_receiver() failed"; pure none
  listening rounds (some fd) = do l ← while_true rounds (receiver_round fd) tt; pure (some l)

  -- The receiving thread, for a number of rounds.
  unfoldable pub broadcast_receiver_thread_func : ℕ → M (Option (Loop (Unit {0})))
  unfolding listening
  broadcast_receiver_thread_func rounds = do fd ← setup_broadcast_receiver; listening rounds fd

module _ (os : Kernel) (addr_receiver : ℕ) where
  sender_socket : ℤ → M (Option ℕ)
  sender_socket (negsuc n) = do report_error "socket() failed for sender"; pure none
  sender_socket (pos fd) = do
    rc ← setsockopt os fd
    if is_nonzero rc
        then (do report_error "setsockopt(SO_BROADCAST) failed"; pure none)
        else pure (some fd)

  unfoldable pub setup_broadcast_sender : M (Option ℕ)
  unfolding sender_socket
  setup_broadcast_sender = do fd ← socket os; sender_socket fd

  -- The whole array is sent, the text and its NULs.
  unfoldable pub sender_round : Bytes → ℕ → Unit {0} → M (Loop (Unit {0}))
  sender_round nick_name fd _ = do
    broadcast_message ← checked (sprintf (zeroed message_size) (broadcast_text nick_name))
    sent_bytes ← sendto os fd broadcast_message addr_receiver
    (if is_nonpos sent_bytes then report_error "Send broadcast message failed" else pure tt)
    sleep 1
    pure (running tt)

  announcing : ℕ → Bytes → Option ℕ → M (Option (Loop (Unit {0})))
  announcing rounds nick_name none = do report_error "setup_broadcast_sender() failed"; pure none
  announcing rounds nick_name (some fd) = do
    l ← while_true rounds (sender_round nick_name fd) tt
    pure (some l)

  -- The sending thread, for a number of rounds.
  unfoldable pub broadcast_sender_thread_func : ℕ → Bytes → M (Option (Loop (Unit {0})))
  unfolding announcing
  broadcast_sender_thread_func rounds nick_name = do
    fd ← setup_broadcast_sender
    announcing rounds nick_name fd

module _ (os : Kernel) where
  -- The loop of `main` over the input, which ends the program.
  unfoldable pub input_round : Unit {0} → M (Loop (Unit {0}))
  input_round _ = do
    line ← fgets os (message_size - 1)
    buffer_stdin ← checked (command line)
    pure (
        if same buffer_stdin (text "exit") || same buffer_stdin (text "quit")
        then stopped tt
        else running tt)
