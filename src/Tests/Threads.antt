-- ===== src/Tests/Threads.antt =====
-- Programs 08 and 09 on a system whose clients send "quit".
use linux_network_programmin.Base.{◌≡◌, refl, [], ◌∷◌, some}
use linux_network_programmin.Sys.{
  Trace, Run, ok, fault, getprotobyname, getaddrinfo, socket, setsockopt, bind, listen, accept,
  pthread_create, pthread_detach, recv, send, close,
}
use linux_network_programmin.CString.{zeroed, c_string, received_text, same}
use linux_network_programmin.CString.Decimal.{decimal, sprintf}
use linux_network_programmin.Socket.Port.{port_text}
use linux_network_programmin.Socket.Listen.{bind_first}
use linux_network_programmin.Socket.Reuse.{open_reusable, bind_stage, listen_stage}
use linux_network_programmin.Sys.Loop.{stopped}
use linux_network_programmin.Session.{is_stop, session_round}
use linux_network_programmin.Threads.{
  System, here, next, accepting, ending, accept_round, start_server,
}
use linux_network_programmin.Threads.Laws.{IsBalanced, threads_lem}
use linux_network_programmin.Tests.Systems.{quitting, quitting-ResolvesSome, quitting-ShortMessages}

abbrev trace_of : {A : Type 0} → Run A → Trace
trace_of (ok a t) = t
trace_of fault = []

abbrev begun : Trace
begun = trace_of (start_server quitting [])

-- A client was accepted.
abbrev welcomed : System
welcomed = record { threads = 4 ∷ []; trace = trace_of (accept_round quitting 3 begun) }

-- Its thread has ended.
abbrev done : System
done = record { threads = []; trace = trace_of (session_round quitting 4 tt welcomed.trace) }

begun_lem : start_server quitting [] ≡ ok (some 3) begun
unfolding start_server open_reusable getprotobyname port_text sprintf decimal zeroed c_string
    getaddrinfo socket bind_stage setsockopt bind_first bind listen_stage listen
begun_lem = refl

welcome_lem : accept_round quitting 3 begun ≡ ok (some 4) welcomed.trace
unfolding accept_round accept pthread_create pthread_detach
welcome_lem = refl

done_lem : session_round quitting 4 tt welcomed.trace ≡ ok (stopped tt) done.trace
unfolding session_round recv received_text is_stop same sprintf send close
done_lem = refl

threads_lem_example : IsBalanced (3 ∷ []) 0 1 done
threads_lem_example =
    threads_lem quitting quitting-ResolvesSome quitting-ShortMessages 3 [] begun done begun_lem
      (next (next here (accepting (some 4) welcome_lem refl)) (ending [] 4 [] refl done_lem refl))
