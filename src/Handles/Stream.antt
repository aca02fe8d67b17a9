-- ===== src/Handles/Stream.antt =====
-- stream.go: the operations of `Stream`, in the order of the file.
pub mod Reading
use libvirt_go.Resource.{
  NativeObject, object_call, Connect, object_free, object_status, reading, handle_of, call_out,
  connect_call, after_write, not_nil, after_read, status,
}
use libvirt_go.Prelude.{
  none, some, String, Option, ℕ, Bytes, if◌then◌else◌, ◌≡◌, ◌∷◌, ◌==◌, [], ◌||◌, length, copy_into,
  refl,
}
use libvirt_go.World.{◌>>=◌, pure, World, M}
use libvirt_go.Native.{NativeApi, call_int, ptr, num, buffer, invoke, out, native_call, call_ptr}
use libvirt_go.Prelude.Int.{ℤ, pos, eqb_ℤ, negsuc, is_negative}
use libvirt_go.Memory.{nil, Ptr}
use libvirt_go.Errors.{GoError, Result, closed, eof, stream_would_block, err}
use libvirt_go.Prelude.Words.{int64_of, int32_of}

-- `newStream` gives its handles this kind.
abbrev kind : String
kind = "stream"

module _ {L : Type 0} (api : NativeApi L) where
  unfoldable new_stream : Option Connect → ℕ → M L (Result NativeObject)
  new_stream c flags = handle_of kind (
      connect_call api nil c "virStreamNew"
        (not_nil λ p. call_ptr api "virStreamNew" (ptr p ∷ num (pos flags) ∷ [])))

  unfoldable free : Option NativeObject → M L (Option GoError × Option NativeObject)
  free stream =
      object_free api stream "virStreamFree" λ p. call_int api "virStreamFree" (ptr p ∷ [])

  unfoldable abort : Option NativeObject → M L (Option GoError)
  abort stream =
      object_status api stream "virStreamAbort" λ p. call_int api "virStreamAbort" (ptr p ∷ [])

  unfoldable finish : Option NativeObject → M L (Option GoError)
  finish stream =
      object_status api stream "virStreamFinish" λ p. call_int api "virStreamFinish" (ptr p ∷ [])

  unfoldable send_hole : Option NativeObject → ℤ → ℕ → M L (Option GoError)
  send_hole stream length flags =
      object_status api stream "virStreamSendHole"
        λ p. call_int api "virStreamSendHole" (ptr p ∷ num length ∷ num (pos flags) ∷ [])

  unfoldable add_reference : Option NativeObject → M L (Result NativeObject)
  add_reference stream = handle_of kind (
      object_call api nil stream "virStreamRef"
        λ p. do result ← call_int api "virStreamRef" (ptr p ∷ []); pure (p, is_negative result))

  -- A transfer: an error as 0 and it, `streamWouldBlock` as 0 and the sentinel.
  unfoldable pub transferred : ℤ → Option GoError → ℤ × Option GoError
  transferred result (some e) = (pos 0, some e)
  transferred result none =
      if eqb_ℤ result (negsuc 1) then (pos 0, some stream_would_block) else (result, none)

  unfoldable write : Option NativeObject → Bytes → M L (ℤ × Option GoError)
  write stream [] = pure (pos 0, none)
  write stream (d ∷ ds) = do
    (result, e) ← object_call api (pos 0) stream "virStreamSend" λ p. do
      value ←
          call_int api "virStreamSend" (ptr p ∷ buffer (d ∷ ds) ∷ num (pos (length (d ∷ ds))) ∷ [])
      pure (value, eqb_ℤ value (negsuc 0))
    pure (transferred result e)

  -- The end of `Read`, which has no bytes and no error only for an empty buffer.
  unfoldable pub received : ℤ → Option GoError → ℤ × Option GoError
  unfolding transferred
  received result (some e) = transferred result (some e)
  received result none = if eqb_ℤ result (pos 0) then (pos 0, some eof) else transferred result none

  -- `Read`, with the contents of the buffer behind it.
  unfoldable pub read : Option NativeObject → Bytes → M L (Bytes × (ℤ × Option GoError))
  read stream [] = pure ([], (pos 0, none))
  read stream (d ∷ ds) = do
    ((result, filled), e) ←
        object_call api (pos 0, d ∷ ds) stream "virStreamRecv"
          λ p. do
            r ← invoke api "virStreamRecv" (ptr p ∷ out ∷ num (pos (length (d ∷ ds))) ∷ [])
            pure ((int32_of r.word, copy_into (d ∷ ds) r.outs), eqb_ℤ (int32_of r.word) (negsuc 0))
    pure (filled, received result e)

  unfoldable recv_hole : Option NativeObject → ℕ → M L (ℤ × Option GoError)
  recv_hole stream flags = object_call api (pos 0) stream "virStreamRecvHole" λ p. do
    (result, length) ← call_out api "virStreamRecvHole" (ptr p ∷ out ∷ num (pos flags) ∷ [])
    pure (int64_of length, is_negative result)

  -- Both handles are locked, in this order, around one call.
  unfoldable storage_vol_stream_call :
      Option NativeObject
      → Option NativeObject
      → String
      → (Ptr → Ptr → M L ℤ)
      → M L (Option GoError)
  storage_vol_stream_call (some volume) (some stream) operation call = reading (
      reading (
        if volume.ptr == nil || stream.ptr == nil
        then pure (some (closed "storage volume or stream"))
        else do
          (result, e) ←
              native_call api (pos 0) operation (status (λ p. call p stream.ptr) volume.ptr)
          pure e))
  storage_vol_stream_call _ _ operation call = pure (some (closed "storage volume or stream"))

  unfoldable download : Option NativeObject → Option NativeObject → ℕ → ℕ → ℕ → M L (Option GoError)
  download volume stream offset length flags =
      storage_vol_stream_call volume stream "virStorageVolDownload" λ p q.
        call_int api "virStorageVolDownload"
          (ptr p ∷ ptr q ∷ num (pos offset) ∷ num (pos length) ∷ num (pos flags) ∷ [])

  unfoldable upload : Option NativeObject → Option NativeObject → ℕ → ℕ → ℕ → M L (Option GoError)
  upload volume stream offset length flags =
      storage_vol_stream_call volume stream "virStorageVolUpload" λ p q.
        call_int api "virStorageVolUpload"
          (ptr p ∷ ptr q ∷ num (pos offset) ∷ num (pos length) ∷ num (pos flags) ∷ [])
