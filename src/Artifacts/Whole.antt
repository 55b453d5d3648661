-- ===== src/Artifacts/Whole.antt =====
-- The pages of readArtifactPage in internal/taskstore/store.go, one and all.
use go_agent_claw.Prelude.{
  ℕ, zero, suc, ◌+◌, ◌-◌, ◌≤◌, ◌<◌, ◌≡◌, refl, sym, ap, ◌∙◌, ◌⊎◌, inl, inr, Bool, true, false, ◌&&◌,
  none, some, [], ◌∷◌, ◌++◌, String, arith, Bool-cases, Option-cases, ltb, leb, ◌==◌, length,
  length-drop, length-take, take, drop, drop-drop, drop-take, min, subst, ok, take-append-drop,
  take_all,
}
use go_agent_claw.Utf8.{Bytes}
use go_agent_claw.Utf8.Boundary.{Boundary, start, before_boundary}
use go_agent_claw.Artifacts.{
  ArtifactPage, ReadFaults, Directory, find_file, is_valid_id, find_straddling, take_runes, page_of,
  cut_text, read_page, read_artifact_page,
}
use go_agent_claw.Artifacts.Paging.{
  window_size, find_straddling-none, take_runes_bounds, take_runes-pos, take_runes-Boundary, IsPage,
  take_prefix, page_of-IsPage,
}

-- The bytes of the page and behind it.
window_rest :
    (file : Bytes) (from offset count : ℕ)
    → from ≤ offset
    → drop (offset - from) (take count (drop from file))
      ≡ take (count - (offset - from)) (drop offset file)
window_rest file from offset count h =
    let there : from + (offset - from) ≡ offset = omega arith in
    drop-take (offset - from) count (drop from file)
    ∙ ap (take (count - (offset - from)))
        (drop-drop (offset - from) from file ∙ ap (λ k. drop k file) there)

cut_text-IsPage :
    (file : Bytes) (offset from limit count : ℕ) {p : ArtifactPage}
    → from ≤ offset
    → offset < length file
    → 0 < count - (offset - from)
    → cut_text offset from limit (length file) (take count (drop from file)) ≡ ok p
    → IsPage file offset limit p
unfolding cut_text
cut_text-IsPage file offset from limit count {p} low inside some_left h =
    let bytes = take count (drop from file) in
    elim (Option-cases (find_straddling (offset - from) 0 (offset - from) bytes)) [
      | inr (i, e) ↦ absurd (ground (arith, e, h))
      | inl e ↦
          let rest = drop (offset - from) bytes in
          let n = take_runes (length rest) limit 0 rest in
          let bounds = take_runes_bounds (length rest) limit 0 rest (omega arith) (omega arith) in
          let shape = window_rest file from offset count low in
          elim (Bool-cases (n == 0 && ltb 0 (length rest))) [
            | inl t ↦ absurd (ground (arith, e, t, h))
            | inr f ↦
                let found : page_of offset (length file) (take n rest) ≡ p =
                  ground (arith, e, f, h) in
                let cut =
                  take_prefix n (count - (offset - from)) (drop offset file)
                    (omega (arith, bounds, ap length shape)) in
                let same : page_of offset (length file) (take n (drop offset file)) ≡ p =
                  ap (page_of offset (length file)) (sym cut.0 ∙ ap (take n) (sym shape)) ∙ found in
                let size = length-take (count - (offset - from)) (drop offset file) in
                let all = length-drop offset file in
                let rest_size : length rest ≡ min (count - (offset - from)) (length file - offset) =
                  omega (arith, ap length shape, size, all) in
                subst (IsPage file offset limit) same (
                  page_of-IsPage file offset limit n (omega (arith, bounds))
                    (omega (arith, bounds, rest_size))
                    (λ more. ground (arith, f, rest_size, some_left, inside)))
          ]
    ]

-- The window of a text page reaches four bytes behind the page, or to the end of the file.
window_end : (total offset limit : ℕ) → ℕ
window_end total offset limit =
    offset
    + min limit (total - offset)
    + min (total - (offset + min limit (total - offset))) 4
    - (offset - 3)

read_page-text :
    (offset limit : ℕ) (file : Bytes)
    → offset < length file
    → read_page true offset limit file
      ≡ cut_text offset
          (offset - 3)
          limit
          (length file)
          (take (window_end (length file) offset limit) (drop (offset - 3) file))
unfolding read_page window_end
read_page-text offset limit file inside = ground arith

window_left :
    (total offset limit : ℕ)
    → 0 < limit
    → offset < total
    → (0 < window_end total offset limit - (offset - (offset - 3)))
      × ((limit + 4 ≤ window_end total offset limit - (offset - (offset - 3)))
          ⊎ (total ≤ offset + (window_end total offset limit - (offset - (offset - 3)))))
unfolding window_end
window_left total offset limit positive inside = ground arith

-- A page that is returned, of text or of bytes, is as `IsPage` says: it is the file's bytes from the offset
-- on, at most as many as the limit; the next offset follows it, the last page is marked exactly if it
-- reaches the end, and any other page has at least one byte.
pub read_page-IsPage :
    (text_page : Bool) (offset limit : ℕ) (file : Bytes) {p : ArtifactPage}
    → 0 < limit
    → read_page text_page offset limit file ≡ ok p
    → IsPage file offset limit p
unfolding read_page
read_page-IsPage text_page offset limit file {p} positive h =
    elim (Bool-cases (leb (length file) offset)) [
      | inl t ↦
          let empty : ArtifactPage = record {
            content = [];
            offset = offset;
            next_offset = offset;
            total = length file;
            eof = true;
          } in
          let found : empty ≡ p = ground (arith, t, h) in
          let done : IsPage file offset limit empty = record {
            content = refl;
            bounded = omega arith;
            next = omega arith;
            last = sym t;
            whole = refl;
            advances = λ e. absurd (ground (arith, e));
          } in
          subst (IsPage file offset limit) found done
      | inr f ↦
          let inside : offset < length file = ground (arith, f) in
          elim (Bool-cases text_page) [
            | inl text ↦
                let cut =
                  sym (read_page-text offset limit file inside)
                  ∙ ap (λ b. read_page b offset limit file) (sym text)
                  ∙ h in
                cut_text-IsPage file offset (offset - 3) limit
                  (window_end (length file) offset limit) (omega arith) inside
                  (window_left (length file) offset limit positive inside).0 cut
            | inr bytes ↦
                let n = min limit (length file - offset) in
                let found : page_of offset (length file) (take n (drop offset file)) ≡ p =
                  ground (arith, f, bytes, h) in
                subst (IsPage file offset limit) found (
                  page_of-IsPage file offset limit n (omega arith) (omega (arith, inside))
                    (λ more. omega (arith, positive, inside)))
          ]
    ]

take_runes_some :
    (limit : ℕ) (bytes : Bytes)
    → 0 < length bytes
    → 4 ≤ limit
    → 0 < take_runes (length bytes) limit 0 bytes
take_runes_some limit [] h room = absurd (omega arith)
take_runes_some limit (b ∷ bs) h room = take_runes-pos (length bs) limit (b ∷ bs) h room

-- Where a character starts, and with room for any, the page ends where one starts.
cut_text-Boundary :
    (file : Bytes) (offset from limit count : ℕ)
    → from ≤ offset
    → offset < length file
    → 0 < count - (offset - from)
    → (limit + 4 ≤ count - (offset - from)) ⊎ (length file ≤ offset + (count - (offset - from)))
    → 4 ≤ limit
    → Boundary file offset
    → (p : ArtifactPage) × (cut_text offset from limit (length file) (take count (drop from file))
        ≡ ok p)
      × Boundary file p.next_offset
unfolding cut_text
cut_text-Boundary file offset from limit count low inside some_left wide room b =
    let bytes = take count (drop from file) in
    let rest = drop (offset - from) bytes in
    let shape = window_rest file from offset count low in
    let clear : find_straddling (offset - from) 0 (offset - from) bytes ≡ none =
      find_straddling-none (offset - from) 0 (offset - from) bytes (λ k l u.
        let size = window_size file from count k (ground (arith, wide, some_left, u, low)) in
        omega (arith, size, before_boundary (from + k) b (omega arith))) in
    let n = take_runes (length rest) limit 0 rest in
    let rest_size : length rest ≡ min (count - (offset - from)) (length file - offset) = omega (
      arith,
      ap length shape,
      length-take (count - (offset - from)) (drop offset file),
      length-drop offset file,
    ) in
    let moves : 0 < n = take_runes_some limit rest (omega (arith, rest_size)) room in
    let bounds = take_runes_bounds (length rest) limit 0 rest (omega arith) (omega arith) in
    let size : length (take n rest) ≡ n = omega (arith, length-take n rest, bounds) in
    let here : Boundary file (offset + 0) = subst (Boundary file) (omega arith) b in
    let next =
      take_runes-Boundary file offset limit (count - (offset - from)) (length rest) 0 wide here in
    let same : offset
          + take_runes (length rest) limit 0 (take (count - (offset - from)) (drop offset file))
        ≡ offset + length (take n rest) =
      ap (λ r. offset + take_runes (length rest) limit 0 r) (sym shape)
      ∙ ap (λ k. offset + k) (sym size) in
    (
      page_of offset (length file) (take n rest),
      ground (arith, clear, moves),
      subst (Boundary file) same next,
    )

-- Where a character starts, and with room for any, a page of text is returned, and the next one starts at a
-- character again.
read_page-Boundary :
    (offset limit : ℕ) (file : Bytes)
    → Boundary file offset
    → 4 ≤ limit
    → (p : ArtifactPage) × (read_page true offset limit file ≡ ok p) × Boundary file p.next_offset
unfolding read_page
read_page-Boundary offset limit file b room = elim (Bool-cases (leb (length file) offset)) [
  | inl t ↦ (
    record { content = []; offset = offset; next_offset = offset; total = length file; eof = true },
    ground (arith, t),
    b,
  )
  | inr f ↦
      let inside : offset < length file = ground (arith, f) in
      let left = window_left (length file) offset limit (omega arith) inside in
      let (p, found, next) =
        cut_text-Boundary file offset (offset - 3) limit (window_end (length file) offset limit)
          (omega arith) inside left.0 left.1 room b in
      (p, read_page-text offset limit file inside ∙ found, next)
]

abbrev pub working : ReadFaults
working = record { open_fails = false; stat_fails = false; read_fails = false }

-- What a reader gets who asks for the page behind each page, until one is marked as the last.
pub data Reads (dir : Directory) (id : String) (limit : ℕ) : ℕ → Bytes → Type 0 where
  last :
      {offset : ℕ} (p : ArtifactPage)
      → read_artifact_page working true dir id true offset limit ≡ ok p
      → p.eof ≡ true
      → Reads dir id limit offset p.content
  more :
      {offset : ℕ} (p : ArtifactPage) {rest : Bytes}
      → read_artifact_page working true dir id true offset limit ≡ ok p
      → p.eof ≡ false
      → Reads dir id limit p.next_offset rest
      → Reads dir id limit offset (p.content ++ rest)

-- The bytes that an `IsPage` page leaves for later.
page_rest :
    (file : Bytes) (offset limit : ℕ) (p : ArtifactPage)
    → IsPage file offset limit p
    → p.content ++ drop p.next_offset file ≡ drop offset file
page_rest file offset limit p v =
    let later : drop p.next_offset file ≡ drop (length p.content) (drop offset file) =
      ap (λ k. drop k file) v.next ∙ sym (drop-drop (length p.content) offset file) in
    ap (λ r. r ++ drop p.next_offset file) v.content
    ∙ ap (λ r. take (length p.content) (drop offset file) ++ r) later
    ∙ take-append-drop (length p.content) (drop offset file)

page_last :
    (file : Bytes) (offset limit : ℕ) (p : ArtifactPage)
    → IsPage file offset limit p
    → p.eof ≡ true
    → p.content ≡ drop offset file
page_last file offset limit p v t =
    let reached : length file ≤ p.next_offset = ground (arith, v.last, t) in
    let all : length (drop offset file) ≤ length p.content =
      omega (arith, length-drop offset file, reached, v.next) in
    v.content ∙ take_all (length p.content) (drop offset file) all

module _ (dir : Directory) (id : String) (limit : ℕ) (file : Bytes) (named : is_valid_id id ≡ true)
    (found : find_file id dir ≡ some file) (room : 4 ≤ limit) where
  handled :
      (offset : ℕ)
      → read_artifact_page working true dir id true offset limit ≡ read_page true offset limit file
  unfolding read_artifact_page
  handled offset = ground (arith, named, found, room)

  Reads-from :
      (fuel offset : ℕ)
      → length file - offset < fuel
      → Boundary file offset
      → Reads dir id limit offset (drop offset file)
  Reads-from zero offset h b = absurd (omega arith)
  Reads-from (suc fuel) offset h b =
      let (p, e, next) = read_page-Boundary offset limit file b room in
      let v = read_page-IsPage true offset limit file (omega arith) e in
      let read = handled offset ∙ e in
      elim (Bool-cases p.eof) [
        | inl t ↦
            subst (Reads dir id limit offset) (page_last file offset limit p v t) (last p read t)
        | inr f ↦
            let below : p.next_offset < length file = ground (arith, v.last, f) in
            let fewer : length file - p.next_offset < fuel =
              omega (arith, v.advances f, v.next, below, h) in
            subst (Reads dir id limit offset) (page_rest file offset limit p v)
              (more p read f (Reads-from fuel p.next_offset fewer next))
      ]

-- Whatever bytes a material has, valid UTF-8 or not, a reader who starts at 0 with a limit of at least four
-- bytes and asks for the page behind each page comes to a last page without an error, and the pages
-- together are the material.
pub pages-Reads :
    (dir : Directory) (id : String) (limit : ℕ) (file : Bytes)
    → is_valid_id id ≡ true
    → find_file id dir ≡ some file
    → 4 ≤ limit
    → Reads dir id limit 0 file
pages-Reads dir id limit file named found room =
    Reads-from dir id limit file named found room (length file + 1) 0 (omega arith) start
