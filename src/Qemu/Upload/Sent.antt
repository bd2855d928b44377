-- ===== src/Qemu/Upload/Sent.antt =====
-- The bytes that uploadBaseImage sends.
use delegatio.Common.{
  ℕ, zero, suc, ◌+◌, ◌*◌, ◌≤◌, ◌≡◌, refl, sym, ap, ◌∙◌, false, List, [], ◌∷◌, ◌++◌, append-nil,
  append_assoc, length, length-append, drop, arith, ltb, map,
}
use delegatio.Common.Outcome.{ok, returns, ◌>>=◌, bind_step}
use delegatio.Store.{Bytes}
use delegatio.Agent.{concat}
use delegatio.Qemu.Upload.{
  ReadEvent, part, end_of_file, UploadStream, Image, fill_buffer, upload_loop, check_size,
  send_image, closing, after_open, upload_base_image,
}

-- A stream that takes all that it is given, and whose other calls go through.
pub record StreamLaws {V : Type 0} (stream : UploadStream V) : Type 1 where
  pub received : V → Bytes
  pub send_law :
      (bytes : Bytes) (v : V)
      → (v' : V) × (stream.send bytes v ≡ returns (ok (length bytes)) v')
        × (received v' ≡ received v ++ bytes)
  pub new_stream_law :
      (v : V) → (v' : V) × (stream.new_stream v ≡ returns (ok tt) v') × (received v' ≡ received v)
  pub upload_law :
      (size : ℕ) (v : V)
      → (v' : V) × (stream.upload size v ≡ returns (ok tt) v') × (received v' ≡ received v)
  pub finish_law :
      (v : V) → (v' : V) × (stream.finish v ≡ returns (ok tt) v') × (received v' ≡ received v)

module _ {V : Type 0} (stream : UploadStream V) (laws : StreamLaws stream) where
  -- Parts that fill the buffer are sent as they are.
  abbrev pub AllFull : ℕ → List Bytes → Type 0
  AllFull size [] = Unit
  AllFull size (bytes ∷ parts) = (length bytes ≡ size) × AllFull size parts

  drop_all : (n : ℕ) (xs : Bytes) → length xs ≡ n → drop n xs ≡ []
  drop_all zero [] h = refl
  drop_all zero (x ∷ xs) h = absurd (omega (arith, h))
  drop_all (suc n) [] h = refl
  drop_all (suc n) (x ∷ xs) h = drop_all n xs (omega (arith, h))

  length-drop : (n : ℕ) (xs : Bytes) → n ≤ length xs → length (drop n xs) + n ≡ length xs
  length-drop zero xs h = omega arith
  length-drop (suc n) [] h = absurd (omega (arith, h))
  length-drop (suc n) (x ∷ xs) h =
      let rest = length-drop n xs (omega (arith, h)) in omega (arith, rest)

  fill_buffer-full :
      (bytes buffer : Bytes) → length bytes ≡ length buffer → fill_buffer bytes buffer ≡ bytes
  fill_buffer-full bytes buffer h =
      ap (λ t. bytes ++ t) (drop_all (length bytes) buffer (sym h)) ∙ append-nil bytes

  upload_loop-step :
      (bytes : Bytes) (reads : List ReadEvent) (buffer : Bytes) (transferred : ℕ) (v v1 : V)
      → length bytes ≡ length buffer
      → stream.send bytes v ≡ returns (ok (length bytes)) v1
      → upload_loop stream (part bytes ∷ reads) buffer transferred v
        ≡ upload_loop stream reads bytes (transferred + length bytes) v1
  unfolding upload_loop
  upload_loop-step bytes reads buffer transferred v v1 full done =
      let filled = fill_buffer-full bytes buffer full in
      bind_step (stream.send (fill_buffer bytes buffer)) _ (ap (λ t. stream.send t v) filled ∙ done)
      ∙ ap (λ t. upload_loop stream reads t (transferred + length bytes) v1) filled

  upload_loop_lem :
      (parts : List Bytes) (last buffer : Bytes) (transferred : ℕ) (v : V)
      → AllFull (length buffer) parts
      → length last ≤ length buffer
      → (v' : V) × (n : ℕ) × (tail : Bytes) × (upload_loop stream
            (map part parts ++ part last ∷ end_of_file ∷ [])
            buffer
            transferred
            v
          ≡ returns (ok n) v')
        × (laws.received v' ≡ laws.received v ++ ((concat parts ++ last) ++ tail))
        × (n ≡ transferred + length (concat parts) + length buffer)
        × (length tail + length last ≡ length buffer)
  unfolding upload_loop
  upload_loop_lem [] last buffer transferred v full short =
      let tail = drop (length last) buffer in
      let size = length-drop (length last) buffer short in
      let (v', done, received) = laws.send_law (last ++ tail) v in
      (
        v',
        transferred + length (last ++ tail),
        tail,
        rw (done, ◌>>=◌) refl,
        received,
        omega (arith, length-append last tail, size),
        size,
      )
  upload_loop_lem (bytes ∷ parts) last buffer transferred v (here, full) short =
      let (v1, done, received) = laws.send_law bytes v in
      let (v', n, tail, all, after, count, size) =
        upload_loop_lem parts last bytes (transferred + length bytes) v1 (rw here full)
          (rw here short) in
      (
        v',
        n,
        tail,
        upload_loop-step bytes (map part parts ++ part last ∷ end_of_file ∷ []) buffer transferred v
              v1 here done
            ∙ all,
        after
            ∙ ap (λ t. t ++ ((concat parts ++ last) ++ tail)) received
            ∙ append_assoc (laws.received v) bytes ((concat parts ++ last) ++ tail)
            ∙ ap (λ t. laws.received v ++ t)
                (sym (append_assoc bytes (concat parts ++ last) tail)
                  ∙ ap (λ t. t ++ tail) (sym (append_assoc bytes (concat parts) last))),
        omega (arith, count, length-append bytes (concat parts), here),
        size ∙ here,
      )

  -- The image in parts: those but the last fill the buffer, and the last need not.
  abbrev pub image_of : List Bytes → Bytes → Image
  image_of parts last = record {
    opened = ok tt;
    stat = ok (length (concat parts ++ last));
    reads = map part parts ++ part last ∷ end_of_file ∷ [];
    closed = ok tt;
  }

  -- With a stream that takes all that it is given, and whose other calls go through: an image that is
  -- read in parts that fill the buffer, but for the last, is uploaded without an error; the bytes sent
  -- are those of the image, in their order, and behind them as many further bytes as the last part
  -- left of the buffer.
  pub upload_base_image_lem :
      (parts : List Bytes) (last buffer : Bytes) (v : V)
      → AllFull (length buffer) parts
      → length last ≤ length buffer
      → (v' : V) × (tail : Bytes) × (upload_base_image stream (image_of parts last) buffer v
          ≡ returns (ok tt) v')
        × (laws.received v' ≡ laws.received v ++ ((concat parts ++ last) ++ tail))
        × (length tail + length last ≡ length buffer)
  unfolding upload_base_image after_open send_image check_size closing
  upload_base_image_lem parts last buffer v full short =
      let (v1, made, same1) = laws.new_stream_law v in
      let (v2, ready, same2) = laws.upload_law (length (concat parts ++ last) * 2) v1 in
      let (v3, n, tail, sent, received, count, size) =
        upload_loop_lem parts last buffer 0 v2 full short in
      let (v4, finished, same3) = laws.finish_law v3 in
      let enough : ltb n (length (concat parts ++ last)) ≡ false =
        ground (arith, count, length-append (concat parts) last, short) in
      (
        v4,
        tail,
        rw (made, ◌>>=◌)
            (rw (ready, ◌>>=◌) (rw (sent, ◌>>=◌) (rw (finished, ◌>>=◌) (rw enough refl)))),
        same3 ∙ received ∙ ap (λ t. t ++ ((concat parts ++ last) ++ tail)) (same2 ∙ same1),
        size,
      )
