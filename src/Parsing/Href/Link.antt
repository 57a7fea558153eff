-- ===== src/Parsing/Href/Link.antt =====
-- The link that `find_href` finds.
use mathlib.Core.List.{append_assoc}
use http_exercise.Base.{
  ℕ, suc, ◌+◌, ◌-◌, ◌≤◌, ◌<◌, ◌≡◌, refl, sym, ap, ◌∙◌, true, false, [], ◌∷◌, ◌++◌, some, arith,
  ◌==◌, length, length-append, drop, drop-length-append, drop_at, take, take-add_length,
  length-take-le, drop-eq-cons,
}
use http_exercise.Exec.{ok}
use http_exercise.Constants.{success, max_url_size, job_request_buffer_size}
use http_exercise.CStr.{Bytes, codes, strchr, strncpy, overwrite, size_diff, starts_with}
use http_exercise.CStr.Scan.{Lacks, strchr_at}
use http_exercise.CStr.Copy.{strncpy_exact, overwrite-drop, store-append}
use http_exercise.Parsing.{matches_command}
use http_exercise.Parsing.Href.{TextFile, link, find_in_buffer, take_link, find_in_file, find_href}

-- a text before the next link, and the link, that fit a chunk
pub record IsLink (before address : Bytes) : Type 0 where
  pub no_h : Lacks b'h' before
  pub no_nul : Lacks 0 before
  pub no_quote : Lacks b'"' address
  pub text : Lacks 0 address
  pub fits : length before + length address + 7 ≤ max_url_size

module _ (before address : Bytes) (t : IsLink before address) where
  abbrev tag : Bytes
  tag = codes "href=\""

  -- the text up to and with the closing quote
  abbrev pub known : Bytes
  known = before ++ (tag ++ (address ++ b'"' ∷ []))

  known-length : length known ≡ length before + length address + 7
  known-length = omega (
    arith,
    length-append before (tag ++ (address ++ b'"' ∷ [])),
    length-append address (b'"' ∷ []),
  )

  module _ (more : Bytes) where
    abbrev from_tag : Bytes
    from_tag = tag ++ (address ++ b'"' ∷ more)

    split : known ++ more ≡ before ++ from_tag
    split =
        append_assoc before (tag ++ (address ++ b'"' ∷ [])) more
        ∙ ap (λ l. before ++ (tag ++ l)) (append_assoc address (b'"' ∷ []) more)

    h_found : strchr (known ++ more) 0 b'h' ≡ ok (some (length before))
    h_found = strchr_at b'h' 0 (length before) [] before _ split refl (omega arith) t.no_h t.no_nul

    tag_matches : matches_command (known ++ more) (length before) (codes "href=") ≡ ok true
    unfolding matches_command starts_with
    tag_matches = rw (drop_at (length before) before from_tag split refl) refl

    address_split : known ++ more ≡ (before ++ tag) ++ (address ++ b'"' ∷ more)
    address_split = split ∙ sym (append_assoc before tag (address ++ b'"' ∷ more))

    tag-length : length before + 6 ≡ length (before ++ tag)
    tag-length = omega (arith, length-append before tag)

    quote_found :
        strchr (known ++ more) (length before + 6) b'"'
        ≡ ok (some (length before + 6 + length address))
    quote_found =
        strchr_at b'"' (length before + 6) (length before + 6 + length address) (before ++ tag)
          address more address_split tag-length (omega (arith, tag-length)) t.no_quote t.text

    buffer_found :
        (fuel : ℕ)
        → find_in_buffer (suc fuel) (known ++ more) 0
          ≡ ok (link (length before) (length before + 6 + length address))
    unfolding find_in_buffer
    buffer_found fuel = rw (h_found, tag_matches, quote_found) refl

    link_copied :
        (output : Bytes)
        → length output ≡ max_url_size + 1
        → strncpy output (known ++ more) (length before + 6) (length address)
          ≡ ok (address ++ drop (length address) output)
    link_copied output size =
        rw (address_split, tag-length)
          (strncpy_exact output (before ++ tag) address (b'"' ∷ more) t.text
            (omega (arith, size, t.fits)))

    link_taken :
        (n : ℕ) (file : TextFile) (output : Bytes)
        → length output ≡ max_url_size + 1
        → take_link
            (link (length before) (length before + 6 + length address))
            n
            (known ++ more)
            file
            output
          ≡ ok (
              some (
                success,
                record file { position = file.position + (length before + 6 + length address) - n },
                address ++ 0 ∷ drop (suc (length address)) output,
              ))
    unfolding take_link
    link_taken n file output size =
        let (x, e) = drop-eq-cons output (length address) (omega (arith, size, t.fits)) in
        rw
          (
            span,
            link_copied output size,
            gap,
            e,
            store-append address (drop (suc (length address)) output) x 0,
          )
          refl
      where
        gap : length before + 6 + length address - length before - 6 ≡ length address
        gap = omega arith

        span : size_diff (length before + 6 + length address) (length before + 6) ≡ length address
        span = omega (arith, t.fits)

  module _ (prior after junk output : Bytes) (wide : length junk ≡ job_request_buffer_size + 1)
      (room : length output ≡ max_url_size + 1) where
    abbrev pub whole : Bytes
    whole = prior ++ (known ++ after)

    abbrev rest : Bytes
    rest = take (max_url_size - length known) after

    chunk_read : take max_url_size (drop (length prior) whole) ≡ known ++ rest
    chunk_read =
        ap (take max_url_size) (drop-length-append prior (known ++ after))
        ∙ ap (λ n. take n (known ++ after)) enough
        ∙ take-add_length known after (max_url_size - length known)
      where
        enough : max_url_size ≡ length known + (max_url_size - length known)
        enough = omega (arith, t.fits, known-length)

    rest-length : length (known ++ rest) ≤ max_url_size
    rest-length =
        omega (
          arith,
          ap length (sym chunk_read),
          length-take-le max_url_size (drop (length prior) whole),
        )

    not_empty : (length (known ++ rest) == 0) ≡ false
    not_empty =
        let some_read : length (known ++ rest) ≡ length known + length rest =
          length-append known rest in
        let longer : 0 < length (known ++ rest) = omega (arith, some_read, known-length) in
        ground arith

    filled :
        overwrite junk (known ++ rest) ≡ ok (known ++ (rest ++ drop (length (known ++ rest)) junk))
    filled =
        overwrite-drop junk (known ++ rest) (omega (arith, wide, rest-length))
        ∙ ap ok (append_assoc known rest (drop (length (known ++ rest)) junk))

    -- From any position `find_href` finds the next link, if the text before it has no 'h' and the link
    -- ends within one chunk: the link is in the output buffer, and the file stands at its closing
    -- quote, whatever the local buffer held before. Both buffers have the sizes of the code.
    pub find_href-link :
        find_href junk (record { content = whole; position = length prior }) output
        ≡ ok (
          success,
          record {
            content = whole;
            position = length prior + (length before + 6 + length address);
          },
          address ++ 0 ∷ drop (suc (length address)) output,
        )
    unfolding find_href find_in_file
    find_href-link =
        rw (chunk_read, not_empty, filled, buffer_found _ _, link_taken _ _ _ output room, back)
          refl
      where
        back :
            length prior
              + length (known ++ rest)
              + (length before + 6 + length address)
              - length (known ++ rest)
            ≡ length prior + (length before + 6 + length address)
        back = omega arith
