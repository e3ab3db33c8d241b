-- ===== src/Serving/Kept.antt =====
-- A request on its way from a client's text to the object that a container reads
-- (netio/src/tcp_net_handler.cpp, netio/include/cmd_obj.h).
use middlewar_test.Base.{◌≤◌, ◌<◌, ◌≡◌, length, arith}
use middlewar_test.Command.{new_cmd, init_ccmd, to_string}
use middlewar_test.Command.Buffer.{length-to_string-le}
use middlewar_test.Command.Sizes.{length-init_ccmd-le}
use middlewar_test.Command.Parsed.{left_pairs}
use middlewar_test.Queue.{buf_size}
use middlewar_test.Netio.{message, request_of}
use middlewar_test.Container.Exchange.{message_read}
use middlewar_test.Serving.Front.{Link, Stands, passed_on, passed_on-IsReadable}

module _ (l : Link) (stands : Stands l) (fits : length l.text ≤ 850) where
  length-passed_on : length (to_string (passed_on l)) < buf_size
  unfolding request_of
  length-passed_on =
      omega
        (arith, length-to_string-le (passed_on l), length-init_ccmd-le l.text, stands.short_address)

  -- Whatever a client writes, in at most 850 bytes, over a connection that stands, `InitCCmd` on a new
  -- object reads from the message the request that the front process passed on: no byte of it is lost,
  -- and nothing in the client's text is taken for one of the members that the front process set.
  pub request_kept : init_ccmd new_cmd (message (passed_on l)) ≡ passed_on l
  request_kept =
      message_read (passed_on l) (left_pairs l.text) (passed_on-IsReadable l stands)
        length-passed_on
