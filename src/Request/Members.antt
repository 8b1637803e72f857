-- ===== src/Request/Members.antt =====
-- `IoRequest::As` of iouring/io_request.h: the reading of each member of the union.
use iouring_cc.Common.Outcome.{Outcome, done, undefined}
use iouring_cc.Request.Payload.{Payload}
use iouring_cc.Request.FileOps.{
  NoOp, ReadvOp, WritevOp, FsyncOp, ReadFixedOp, WriteFixedOp, SyncFileRangeOp, FallocateOp,
  OpenatOp, CloseOp, FilesUpdateOp, ReadOp, WriteOp, FadviseOp, MadviseOp, Openat2Op, StatxOp,
  SpliceOp, TeeOp,
}
use iouring_cc.Request.NetOps.{
  SendmsgOp, RecvmsgOp, AcceptOp, ConnectOp, SendOp, RecvOp, ShutdownOp, EpollCtlOp, SocketOp,
  PollAddOp, PollRemoveOp,
}
use iouring_cc.Request.MiscOps.{
  TimeoutOp, TimeoutRemoveOp, CancelOp, LinkTimeoutOp, ProvideBuffOp, RenameatOp, UnlinkatOp,
  MakediratOp, SymlinkatOp, LinkatOp, MsgringOp, XattrOp,
}

unfoldable pub as_noop : Payload → Outcome NoOp
as_noop (Payload.noop op) = done op
as_noop _ = undefined

unfoldable pub as_read : Payload → Outcome ReadOp
as_read (Payload.read op) = done op
as_read _ = undefined

unfoldable pub as_readv : Payload → Outcome ReadvOp
as_readv (Payload.readv op) = done op
as_readv _ = undefined

unfoldable pub as_recv : Payload → Outcome RecvOp
as_recv (Payload.recv op) = done op
as_recv _ = undefined

unfoldable pub as_recvmsg : Payload → Outcome RecvmsgOp
as_recvmsg (Payload.recvmsg op) = done op
as_recvmsg _ = undefined

unfoldable pub as_send : Payload → Outcome SendOp
as_send (Payload.send op) = done op
as_send _ = undefined

unfoldable pub as_sendmsg : Payload → Outcome SendmsgOp
as_sendmsg (Payload.sendmsg op) = done op
as_sendmsg _ = undefined

unfoldable pub as_write : Payload → Outcome WriteOp
as_write (Payload.write op) = done op
as_write _ = undefined

unfoldable pub as_writev : Payload → Outcome WritevOp
as_writev (Payload.writev op) = done op
as_writev _ = undefined

unfoldable pub as_accept : Payload → Outcome AcceptOp
as_accept (Payload.accept op) = done op
as_accept _ = undefined

unfoldable pub as_connect : Payload → Outcome ConnectOp
as_connect (Payload.connect op) = done op
as_connect _ = undefined

unfoldable pub as_poll_add : Payload → Outcome PollAddOp
as_poll_add (Payload.poll_add op) = done op
as_poll_add _ = undefined

unfoldable pub as_poll_remove : Payload → Outcome PollRemoveOp
as_poll_remove (Payload.poll_remove op) = done op
as_poll_remove _ = undefined

unfoldable pub as_cancel : Payload → Outcome CancelOp
as_cancel (Payload.cancel op) = done op
as_cancel _ = undefined

unfoldable pub as_fallocate : Payload → Outcome FallocateOp
as_fallocate (Payload.fallocate op) = done op
as_fallocate _ = undefined

unfoldable pub as_close : Payload → Outcome CloseOp
as_close (Payload.close op) = done op
as_close _ = undefined

unfoldable pub as_fsync : Payload → Outcome FsyncOp
as_fsync (Payload.fsync op) = done op
as_fsync _ = undefined

unfoldable pub as_read_fixed : Payload → Outcome ReadFixedOp
as_read_fixed (Payload.read_fixed op) = done op
as_read_fixed _ = undefined

unfoldable pub as_write_fixed : Payload → Outcome WriteFixedOp
as_write_fixed (Payload.write_fixed op) = done op
as_write_fixed _ = undefined

unfoldable pub as_timeout : Payload → Outcome TimeoutOp
as_timeout (Payload.timeout op) = done op
as_timeout _ = undefined

unfoldable pub as_timeout_remove : Payload → Outcome TimeoutRemoveOp
as_timeout_remove (Payload.timeout_remove op) = done op
as_timeout_remove _ = undefined

unfoldable pub as_link_timeout : Payload → Outcome LinkTimeoutOp
as_link_timeout (Payload.link_timeout op) = done op
as_link_timeout _ = undefined

unfoldable pub as_openat : Payload → Outcome OpenatOp
as_openat (Payload.openat op) = done op
as_openat _ = undefined

unfoldable pub as_statx : Payload → Outcome StatxOp
as_statx (Payload.statx op) = done op
as_statx _ = undefined

unfoldable pub as_splice : Payload → Outcome SpliceOp
as_splice (Payload.splice op) = done op
as_splice _ = undefined

unfoldable pub as_tee : Payload → Outcome TeeOp
as_tee (Payload.tee op) = done op
as_tee _ = undefined

unfoldable pub as_shutdown : Payload → Outcome ShutdownOp
as_shutdown (Payload.shutdown op) = done op
as_shutdown _ = undefined

unfoldable pub as_renameat : Payload → Outcome RenameatOp
as_renameat (Payload.renameat op) = done op
as_renameat _ = undefined

unfoldable pub as_symlinkat : Payload → Outcome SymlinkatOp
as_symlinkat (Payload.symlinkat op) = done op
as_symlinkat _ = undefined

unfoldable pub as_linkat : Payload → Outcome LinkatOp
as_linkat (Payload.linkat op) = done op
as_linkat _ = undefined

unfoldable pub as_unlinkat : Payload → Outcome UnlinkatOp
as_unlinkat (Payload.unlinkat op) = done op
as_unlinkat _ = undefined

unfoldable pub as_makedirat : Payload → Outcome MakediratOp
as_makedirat (Payload.makedirat op) = done op
as_makedirat _ = undefined

unfoldable pub as_epoll_ctl : Payload → Outcome EpollCtlOp
as_epoll_ctl (Payload.epoll_ctl op) = done op
as_epoll_ctl _ = undefined

unfoldable pub as_provide_buff : Payload → Outcome ProvideBuffOp
as_provide_buff (Payload.provide_buff op) = done op
as_provide_buff _ = undefined

unfoldable pub as_sync_filerange : Payload → Outcome SyncFileRangeOp
as_sync_filerange (Payload.sync_filerange op) = done op
as_sync_filerange _ = undefined

unfoldable pub as_files_update : Payload → Outcome FilesUpdateOp
as_files_update (Payload.files_update op) = done op
as_files_update _ = undefined

unfoldable pub as_fadvise : Payload → Outcome FadviseOp
as_fadvise (Payload.fadvise op) = done op
as_fadvise _ = undefined

unfoldable pub as_madvise : Payload → Outcome MadviseOp
as_madvise (Payload.madvise op) = done op
as_madvise _ = undefined

unfoldable pub as_openat2 : Payload → Outcome Openat2Op
as_openat2 (Payload.openat2 op) = done op
as_openat2 _ = undefined

unfoldable pub as_msgring : Payload → Outcome MsgringOp
as_msgring (Payload.msgring op) = done op
as_msgring _ = undefined

unfoldable pub as_xattr : Payload → Outcome XattrOp
as_xattr (Payload.xattr op) = done op
as_xattr _ = undefined

unfoldable pub as_socket : Payload → Outcome SocketOp
as_socket (Payload.socket op) = done op
as_socket _ = undefined
