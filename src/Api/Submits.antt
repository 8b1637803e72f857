-- ===== src/Api/Submits.antt =====
-- What each call submits.
use iouring_cc.Common.{ℕ, Bool, true, false, ◌≡◌, refl, not, List, if◌then◌else◌, arith}
use iouring_cc.Common.Int.{ℤ}
use iouring_cc.Common.Outcome.{Outcome, aborted}
use iouring_cc.Request.Payload.{IoRequest}
use iouring_cc.Sqe.Dispatch.{Context}
use iouring_cc.Sqe.Made.{Made}
use iouring_cc.Completion.{Kind}
use iouring_cc.Submit.{Ring}
use iouring_cc.Api.{Caller, Client, MsgHdr, submit_new, with_header}
use iouring_cc.Api.File
use iouring_cc.Api.Net
use iouring_cc.Api.Misc
use iouring_cc.Request.Payload.{invalid_socket}
use iouring_cc.Api.Calls.{Call, call}
use iouring_cc.Api.Contracts.{supported, accepted}

module _ {R : Type 0} (sys : Ring R) (fuel junk : ℕ) (w : Caller) (s : Client R) where
  -- A request, which a `make_` function has built, with a new completion.
  pub record Posted (c : Call) (x : Outcome (Client R)) : Type 0 where
    pub kind : Kind
    pub gid : ℤ
    pub request : IoRequest
    pub headers : List (ℕ × MsgHdr)
    pub submitted : x ≡ submit_new sys fuel junk w kind gid request (record s { headers = headers })
    pub built : (y : Context) → supported y c ≡ true → Made y request

  -- Either an assertion of the call fails, or it submits.
  pub data Submits (c : Call) (x : Outcome (Client R)) : Type 0 where
    refuses : accepted c w.vars ≡ false → x ≡ aborted → Submits c x
    submits : accepted c w.vars ≡ true → Posted c x → Submits c x

  guarded :
      {c : Call} {x : Outcome (Client R)} (refused : Bool)
      → refused ≡ not (accepted c w.vars)
      → Posted c x
      → Submits c (if refused then aborted else x)
  guarded true e g = refuses (ground (arith, e)) refl
  guarded false e g = submits (ground (arith, e)) g

  posted :
      {c : Call} (k : Kind) (gid : ℤ) (req : IoRequest) (headers : List (ℕ × MsgHdr))
      → ((y : Context) → supported y c ≡ true → Made y req)
      → Posted c (submit_new sys fuel junk w k gid req (record s { headers = headers }))
  posted k gid req headers built = record {
    kind = k;
    gid = gid;
    request = req;
    headers = headers;
    submitted = refl;
    built = built;
  }

  pub call-Submits : (c : Call) → Submits c (call sys fuel junk w s c)
  unfolding call supported accepted Net.multishot_refused Net.recv_refused with_header Misc.noop
      File.read_vector File.write_vector File.fsync File.read_fixed File.write_fixed Net.poll_add
      Net.poll_remove File.file_sync_range Net.send_msg_vector Net.send_msg Net.recv_msg_vector
      Net.recv_msg Misc.timeout Misc.timeout_remove Misc.timeout_update Net.accept Misc.cancel
      Misc.cancel_64 Misc.cancel_fd Misc.link_timeout Net.connect File.fallocate File.openat
      File.close File.files_update File.statx File.read File.write File.fadvise File.madvise
      Net.send Net.recv File.openat2 Net.epoll_ctl File.splice Misc.provide_buffer
      Misc.remove_buffer File.tee Net.shutdown Misc.renameat Misc.unlinkat Misc.makedirat
      Misc.symlinkat Misc.linkat Misc.msg_ring Misc.fsetxattr Misc.setxattr Misc.fgetxattr
      Misc.getxattr Net.socket Net.send_zc Net.send_msg_zc
  call-Submits Call.noop = submits refl (posted _ _ _ _ (λ y h. Made.noop w.vars))
  call-Submits (Call.read_vector fd iovecs_data iovecs_size offset rw_flags) =
      submits refl
        (posted _ _ _ _ (λ y h. Made.readv fd offset iovecs_data iovecs_size rw_flags w.vars))
  call-Submits (Call.write_vector fd iovecs_data iovecs_size offset rw_flags) =
      submits refl
        (posted _ _ _ _ (λ y h. Made.writev fd offset iovecs_data iovecs_size rw_flags w.vars))
  call-Submits (Call.fsync fd flags) =
      submits refl (posted _ _ _ _ (λ y h. Made.fsync fd flags w.vars))
  call-Submits (Call.read_fixed fd buf count offset buf_index) =
      submits refl (posted _ _ _ _ (λ y h. Made.read_fixed fd offset buf count buf_index w.vars))
  call-Submits (Call.write_fixed fd buf count offset buf_index) =
      submits refl (posted _ _ _ _ (λ y h. Made.write_fixed fd offset buf count buf_index w.vars))
  call-Submits (Call.poll_add fd events) =
      submits refl (posted _ _ _ _ (λ y h. Made.poll_add fd events w.vars))
  call-Submits (Call.poll_remove user_data) =
      submits refl (posted _ _ _ _ (λ y h. Made.poll_remove user_data w.vars))
  call-Submits (Call.file_sync_range fd len offset flags) =
      submits refl (posted _ _ _ _ (λ y h. Made.sync_filerange fd len offset flags w.vars))
  call-Submits (Call.send_msg_vector fd iov_data iov_size flags) =
      submits refl (posted _ _ _ _ (λ y h. Made.sendmsg fd w.msg_hdr flags w.vars))
  call-Submits (Call.send_msg fd msghdr flags) =
      submits refl (posted _ _ _ _ (λ y h. Made.sendmsg fd w.msg_hdr flags w.vars))
  call-Submits (Call.recv_msg_vector fd iov_data iov_size flags) =
      guarded _ (ground arith) (posted _ _ _ _ (λ y h. Made.recvmsg fd w.msg_hdr flags w.vars))
  call-Submits (Call.recv_msg fd msghdr flags) =
      guarded _ (ground arith) (posted _ _ _ _ (λ y h. Made.recvmsg fd w.msg_hdr flags w.vars))
  call-Submits (Call.timeout timeout_ns count flags) =
      submits refl (posted _ _ _ _ (λ y h. Made.timeout timeout_ns count flags w.vars))
  call-Submits (Call.timeout_remove user_data flags) = submits refl (posted _ _ _ _ (λ y h. cc))
  call-Submits (Call.timeout_update timeout_ns user_data flags) =
      submits refl (posted _ _ _ _ (λ y h. cc))
  call-Submits (Call.accept sockfd addr addrlen flags) =
      submits refl (posted _ _ _ _ (λ y h. Made.accept sockfd addr addrlen flags w.vars))
  call-Submits (Call.cancel user_data flags) =
      submits refl (posted _ _ _ _ (λ y h. Made.cancel user_data 0 invalid_socket flags w.vars))
  call-Submits (Call.cancel_64 user_data flags) =
      submits refl (posted _ _ _ _ (λ y h. Made.cancel 0 user_data invalid_socket flags w.vars))
  call-Submits (Call.cancel_fd fd flags) =
      submits refl (posted _ _ _ _ (λ y h. Made.cancel 0 0 fd flags w.vars))
  call-Submits (Call.link_timeout timeout_ns flags) =
      submits refl (posted _ _ _ _ (λ y h. Made.link_timeout timeout_ns flags w.vars))
  call-Submits (Call.connect sockfd addr addrlen) =
      submits refl (posted _ _ _ _ (λ y h. Made.connect sockfd addr addrlen w.vars))
  call-Submits (Call.fallocate fd mode offset len) =
      submits refl (posted _ _ _ _ (λ y h. Made.fallocate fd mode offset len w.vars))
  call-Submits (Call.openat dirfd pathname flags mode) =
      submits refl (posted _ _ _ _ (λ y h. Made.openat dirfd pathname flags mode w.vars))
  call-Submits (Call.close fd) = submits refl (posted _ _ _ _ (λ y h. Made.close fd w.vars))
  call-Submits (Call.files_update fds_data fds_size offset) =
      submits refl (posted _ _ _ _ (λ y h. Made.files_update fds_data fds_size offset w.vars))
  call-Submits (Call.statx dirfd pathname flags mask statxbuf) =
      submits refl (posted _ _ _ _ (λ y h. Made.statx dirfd pathname flags mask statxbuf w.vars))
  call-Submits (Call.read fd buf count offset) =
      guarded _ (ground arith) (posted _ _ _ _ (λ y h. Made.read fd offset buf count w.vars))
  call-Submits (Call.write fd buf count offset) =
      submits refl (posted _ _ _ _ (λ y h. Made.write fd offset buf count w.vars))
  call-Submits (Call.fadvise fd offset len advice) =
      submits refl (posted _ _ _ _ (λ y h. Made.fadvise fd offset len advice w.vars))
  call-Submits (Call.madvise addr len advice) =
      submits refl (posted _ _ _ _ (λ y h. Made.madvise addr len advice w.vars))
  call-Submits (Call.send sockfd buf len flags) =
      submits refl (posted _ _ _ _ (λ y h. Made.send sockfd buf len flags w.vars))
  call-Submits (Call.recv fd buf len flags) =
      guarded _ (ground arith) (posted _ _ _ _ (λ y h. Made.recv fd buf len flags w.vars))
  call-Submits (Call.openat2 dirfd pathname how flags) =
      submits refl (posted _ _ _ _ (λ y h. Made.openat2 dirfd pathname flags how w.vars))
  call-Submits (Call.epoll_ctl epfd fd op event) =
      submits refl (posted _ _ _ _ (λ y h. Made.epoll_ctl epfd fd op event w.vars))
  call-Submits (Call.splice in_fd in_offset out_fd out_offset size flags) =
      submits refl
        (posted _ _ _ _ (λ y h. Made.splice in_fd in_offset out_fd out_offset size flags w.vars))
  call-Submits (Call.provide_buffer buffer len nbufs gid bid) =
      submits refl (posted _ _ _ _ (λ y h. Made.provide_buffer buffer len nbufs gid bid w.vars h))
  call-Submits (Call.remove_buffer nbufs gid) =
      submits refl (posted _ _ _ _ (λ y h. Made.remove_buffer nbufs gid w.vars h))
  call-Submits (Call.tee in_fd out_fd size flags) =
      submits refl (posted _ _ _ _ (λ y h. Made.tee in_fd out_fd size flags w.vars))
  call-Submits (Call.shutdown sockfd how) =
      submits refl (posted _ _ _ _ (λ y h. Made.shutdown sockfd how w.vars))
  call-Submits (Call.renameat olddirfd oldpath newdirfd newpath flags) =
      submits refl
        (posted _ _ _ _ (λ y h. Made.renameat olddirfd oldpath newdirfd newpath flags w.vars))
  call-Submits (Call.unlinkat dirfd path flags) =
      submits refl (posted _ _ _ _ (λ y h. Made.unlinkat dirfd path flags w.vars))
  call-Submits (Call.makedirat dirfd path mode) =
      submits refl (posted _ _ _ _ (λ y h. Made.makedirat dirfd path mode w.vars))
  call-Submits (Call.symlinkat target newdirfd linkpath) =
      submits refl (posted _ _ _ _ (λ y h. Made.symlinkat target newdirfd linkpath w.vars))
  call-Submits (Call.linkat olddirfd oldpath newdirfd newpath flags) =
      submits refl
        (posted _ _ _ _ (λ y h. Made.linkat olddirfd oldpath newdirfd newpath flags w.vars))
  call-Submits (Call.msg_ring fd data_32 data_64 flags) =
      submits refl (posted _ _ _ _ (λ y h. Made.msgring fd data_32 data_64 flags w.vars))
  call-Submits (Call.fsetxattr fd name value flags len) =
      submits refl (posted _ _ _ _ (λ y h. Made.fsetxattr fd name value flags len w.vars))
  call-Submits (Call.setxattr path name value flags len) =
      submits refl (posted _ _ _ _ (λ y h. Made.setxattr path name value flags len w.vars))
  call-Submits (Call.fgetxattr fd name value len) =
      submits refl (posted _ _ _ _ (λ y h. Made.fgetxattr fd name value len w.vars))
  call-Submits (Call.getxattr path name value len) =
      submits refl (posted _ _ _ _ (λ y h. Made.getxattr path name value len w.vars))
  call-Submits (Call.socket domain type protocol flags) = submits refl (posted _ _ _ _ (λ y h. cc))
  call-Submits (Call.send_zc sockfd buf len flags zc_flags) =
      submits refl (posted _ _ _ _ (λ y h. Made.sendzc sockfd buf len flags zc_flags w.vars))
  call-Submits (Call.send_msg_zc fd msghdr flags) =
      submits refl (posted _ _ _ _ (λ y h. Made.sendmsgzc fd w.msg_hdr flags w.vars))
