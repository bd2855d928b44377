-- ===== src/Qemu/Upload.antt =====
-- uploadBaseImage of cli/infrastructure/qemu/util.go: the image's file in parts of a buffer.
pub mod Sent
use delegatio.Common.{
  ℕ, zero, suc, ◌+◌, ◌*◌, ◌-◌, ◌≤◌, ◌≡◌, refl, sym, ap, ◌∙◌, Bool, true, false, List, [], ◌∷◌, ◌++◌,
  Option, none, some, append-nil, append_assoc, length, length-append, drop, arith, ltb,
  if◌then◌else◌, map,
}
use delegatio.Common.Outcome.{Result, ok, err, returns, blocks, Method, pure, on_ok, ◌>>=◌, ◌>>◌}
use delegatio.Store.{Bytes}

-- What a turn of the loop meets: so many bytes read, the end of the file, an error of Read, or the end
-- of the context.
pub data ReadEvent : Type 0 where
  part : Bytes → ReadEvent
  end_of_file : ReadEvent
  read_failed : ℕ → ReadEvent
  upload_context_done : ReadEvent

pub data UploadError : Type 0 where
  of_libvirt of_file : ℕ → UploadError
  upload_context_ended : UploadError
  too_short : ℕ → ℕ → UploadError

-- The libvirt stream and the volume, at a state `V`. Send tells how many bytes it took.
pub record UploadStream (V : Type 0) : Type 0 where
  pub new_stream : Method V (Result UploadError Unit)
  pub upload : ℕ → Method V (Result UploadError Unit)
  pub send : Bytes → Method V (Result UploadError ℕ)
  pub abort : Method V Unit
  pub finish : Method V (Result UploadError Unit)

-- The image: the errors of Open, Stat and Close, its size, and its reads.
pub record Image : Type 0 where
  pub opened : Result UploadError Unit
  pub stat : Result UploadError ℕ
  pub reads : List ReadEvent
  pub closed : Result UploadError Unit

-- Read writes over the start of the buffer.
abbrev pub fill_buffer : Bytes → Bytes → Bytes
fill_buffer bytes buffer = bytes ++ drop (length bytes) buffer

module _ {V : Type 0} (stream : UploadStream V) where
  -- With no further event Read waits.
  unfoldable pub upload_loop : List ReadEvent → Bytes → ℕ → Method V (Result UploadError ℕ)
  upload_loop [] buffer transferred = λ _. blocks
  upload_loop (upload_context_done ∷ reads) buffer transferred = do
    stream.abort
    pure (err upload_context_ended)
  upload_loop (read_failed e ∷ reads) buffer transferred = pure (err (of_file e))
  upload_loop (end_of_file ∷ reads) buffer transferred = pure (ok transferred)
  upload_loop (part bytes ∷ reads) buffer transferred = do
    sent ← stream.send (fill_buffer bytes buffer)
    on_ok sent λ num. upload_loop reads (fill_buffer bytes buffer) (transferred + num)

  -- The test at the end.
  check_size : ℕ → ℕ → Result UploadError Unit
  check_size transferred size =
      if ltb transferred size then err (too_short transferred size) else ok tt

  send_image : List ReadEvent → Bytes → ℕ → Method V (Result UploadError Unit)
  unfolding upload_loop check_size
  send_image reads buffer size = do
    ready ← stream.upload (size * 2)
    on_ok ready λ _. (do
      loop ← upload_loop reads buffer 0
      on_ok loop λ transferred. (do
        finished ← stream.finish
        on_ok finished λ _. pure (check_size transferred size)))

  -- errors.Join(err, file.Close()): an error of either remains.
  closing : Result UploadError Unit → Result UploadError Unit → Result UploadError Unit
  closing (err e) closed = err e
  closing (ok _) closed = closed

  after_open : Image → Bytes → Method V (Result UploadError Unit)
  unfolding send_image closing
  after_open image buffer = do
    done ← on_ok image.stat (send_image image.reads buffer)
    pure (closing done image.closed)

  -- `buffer` is the new buffer, all zeros; 4 MiB in the program.
  unfoldable pub upload_base_image : Image → Bytes → Method V (Result UploadError Unit)
  unfolding after_open
  upload_base_image image buffer = do
    made ← stream.new_stream
    on_ok made λ _. on_ok image.opened λ _. after_open image buffer
