-- ===== src/BoundedTextBuffer/Trimming.antt =====
-- The loop of `trim` against a trimming of the live chunks alone.
use connexin.Prelude.{
  ℕ, zero, suc, ◌+◌, ◌-◌, ◌*◌, ◌≤◌, ◌<◌, ◌≡◌, refl, sym, ap, ◌∙◌, inl, inr, ◌||◌, List, [], ◌∷◌,
  map, arith, ltb, leb, Bool-cases, ltb→lt, ltb-false→le, leb→le, leb-false→lt, ap₂, length, drop,
  get_or, set, drop_cons, drop-set, drop_beyond, length-set, length-drop, map-drop, map-set,
  get_or-map,
}
use connexin.Utf8.{Text, utf8_byte_length, drop_first_utf8_bytes}
use connexin.Utf8.Cuts.{drop_first_utf8_bytes_parts}
use connexin.BoundedTextBuffer.LiveChunks.{
  live, size, trim_live, trim_live_fits, none_left, trim_live-drop, trim_live-cut,
}
use connexin.BoundedTextBuffer.{
  BoundedTextBuffer, compact_if_needed, drop_chunk, trim_chunk, trim_from,
}

-- The cached byte lengths are those of the chunks, and the total is that of the live ones.
pub record IsAccurate (b : BoundedTextBuffer) : Type 0 where
  pub cached : b.chunk_bytes ≡ map utf8_byte_length b.chunks
  pub inside : b.first_chunk ≤ length b.chunks
  pub total : b.total_bytes ≡ size (live b)

compact_if_needed_keeps :
    (b : BoundedTextBuffer)
    → IsAccurate b
    → let c = compact_if_needed b in
      IsAccurate c
      × (live c ≡ live b)
      × (c.max_bytes ≡ b.max_bytes)
      × (length c.chunks - c.first_chunk ≡ length b.chunks - b.first_chunk)
unfolding compact_if_needed
compact_if_needed_keeps b v =
    elim (Bool-cases (ltb b.first_chunk 64 || ltb (b.first_chunk * 2) (length b.chunks))) [
      | inl early ↦ rw (early) (v, refl, refl, refl)
      | inr late ↦ rw (late) (
        record {
          cached = ap (drop b.first_chunk) v.cached ∙ sym (map-drop _ b.first_chunk b.chunks);
          inside = omega arith;
          total = v.total;
        },
        refl,
        refl,
        omega (arith, length-drop b.first_chunk b.chunks),
      )
    ]

module _ (b : BoundedTextBuffer) (v : IsAccurate b) (more : b.first_chunk < length b.chunks) where
  first : Text
  first = get_or b.chunks b.first_chunk []

  rest : List Text
  rest = drop (suc b.first_chunk) b.chunks

  live_cons : live b ≡ first ∷ rest
  unfolding first rest
  live_cons = drop_cons b.chunks b.first_chunk [] more

  first_bytes : get_or b.chunk_bytes b.first_chunk 0 ≡ utf8_byte_length first
  unfolding first
  first_bytes =
      ap (λ l. get_or l b.first_chunk 0) v.cached
      ∙ get_or-map utf8_byte_length b.chunks b.first_chunk [] 0 more

  total_cons : b.total_bytes ≡ utf8_byte_length first + size rest
  total_cons = v.total ∙ ap size live_cons

  drop_chunk_keeps :
      IsAccurate (drop_chunk b)
      × (live (drop_chunk b) ≡ rest)
      × ((drop_chunk b).max_bytes ≡ b.max_bytes)
      × (suc (length (drop_chunk b).chunks - (drop_chunk b).first_chunk)
          ≡ length b.chunks - b.first_chunk)
  unfolding drop_chunk rest
  drop_chunk_keeps =
      let passed : BoundedTextBuffer = record b {
        first_chunk = b.first_chunk + 1;
        total_bytes = b.total_bytes - get_or b.chunk_bytes b.first_chunk 0;
      } in
      let same : live passed ≡ drop (suc b.first_chunk) b.chunks =
        let next : b.first_chunk + 1 ≡ suc b.first_chunk = omega arith in
        ap (λ i. drop i b.chunks) next in
      let (w, l, m, n) = compact_if_needed_keeps passed (record {
        cached = v.cached;
        inside = omega arith;
        total = omega (arith, total_cons, first_bytes, ap size same);
      }) in
      (w, l ∙ same, m, omega arith)

  trim_chunk_keeps :
      b.max_bytes < b.total_bytes
      → b.total_bytes - b.max_bytes < utf8_byte_length first
      → IsAccurate (trim_chunk b)
        × (live (trim_chunk b)
            ≡ (drop_first_utf8_bytes first (b.total_bytes - b.max_bytes)).text ∷ rest)
        × ((trim_chunk b).max_bytes ≡ b.max_bytes)
  unfolding trim_chunk rest first
  trim_chunk_keeps over partial =
      let i = b.first_chunk in
      let d = drop_first_utf8_bytes (get_or b.chunks i []) (b.total_bytes - b.max_bytes) in
      let (_, counted, _, _) =
        drop_first_utf8_bytes_parts (get_or b.chunks i []) (b.total_bytes - b.max_bytes) in
      let same = drop-set b.chunks i d.text more in
      let left : get_or b.chunk_bytes i 0 - d.bytes ≡ utf8_byte_length d.text =
        omega (arith, first_bytes) in
      (
        record {
          cached =
              ap (λ l. set l i (get_or b.chunk_bytes i 0 - d.bytes)) v.cached
              ∙ ap (set (map utf8_byte_length b.chunks) i) left
              ∙ sym (map-set utf8_byte_length b.chunks i d.text);
          inside = omega (arith, length-set b.chunks i d.text);
          total = omega (arith, total_cons, ap size same);
        },
        same,
        refl,
      )

-- From a buffer with accurate lengths, with fuel above the number of live chunks, the loop ends by
-- its own test, keeps the cached lengths accurate, and leaves the live chunks that `trim_live`
-- leaves.
pub trim_from-live :
    (fuel : ℕ) (b : BoundedTextBuffer)
    → IsAccurate b
    → length b.chunks - b.first_chunk < fuel
    → let c = trim_from fuel b in
      IsAccurate c × (live c ≡ trim_live b.max_bytes (live b)) × (c.max_bytes ≡ b.max_bytes)
unfolding trim_from
trim_from-live zero b v h = absurd (omega arith)
trim_from-live (suc fuel) b v h = elim (Bool-cases (ltb b.max_bytes b.total_bytes)) [
  | inr fits ↦ rw (fits) (
    v,
    sym (trim_live_fits b.max_bytes (live b) (omega (arith, ltb-false→le _ _ fits, v.total))),
    refl,
  )
  | inl over ↦ elim (Bool-cases (ltb b.first_chunk (length b.chunks))) [
    | inr empty ↦
        rw (over, empty)
          (
            v,
            none_left b.max_bytes (live b)
                (drop_beyond b.chunks b.first_chunk (ltb-false→le _ _ empty)),
            refl,
          )
    | inl more ↦
        elim (Bool-cases
          (leb (get_or b.chunk_bytes b.first_chunk 0) (b.total_bytes - b.max_bytes))) [
            | inl whole ↦
                rw (over, more, whole)
                  (let (w, l, m, n) = drop_chunk_keeps b v (ltb→lt _ _ more) in
                    let (w', l', m') = trim_from-live fuel (drop_chunk b) w (omega arith) in
                    (
                      w',
                      l'
                          ∙ ap₂ trim_live m l
                          ∙ sym (
                              trim_live-drop b.max_bytes (first b v (ltb→lt _ _ more))
                                (rest b v (ltb→lt _ _ more))
                                (omega (arith, ltb→lt _ _ over, total_cons b v (ltb→lt _ _ more)))
                                (omega (
                                  arith,
                                  leb→le _ _ whole,
                                  total_cons b v (ltb→lt _ _ more),
                                  first_bytes b v (ltb→lt _ _ more),
                                )))
                          ∙ ap (trim_live b.max_bytes) (sym (live_cons b v (ltb→lt _ _ more))),
                      m' ∙ m,
                    ))
            | inr partial ↦
                rw (over, more, partial)
                  (let here = ltb→lt _ _ more in
                    let (w, l, m) =
                      trim_chunk_keeps b v here (ltb→lt _ _ over)
                        (omega (arith, leb-false→lt _ _ partial, first_bytes b v here)) in
                    (
                      w,
                      l
                          ∙ ap
                              (λ n.
                                (drop_first_utf8_bytes (first b v here) (n - b.max_bytes)).text
                                ∷ rest b v here)
                              (total_cons b v here)
                          ∙ sym (
                              trim_live-cut b.max_bytes (first b v here) (rest b v here)
                                (omega (arith, ltb→lt _ _ over, total_cons b v here))
                                (omega (
                                  arith,
                                  leb-false→lt _ _ partial,
                                  total_cons b v here,
                                  first_bytes b v here,
                                )))
                          ∙ ap (trim_live b.max_bytes) (sym (live_cons b v here)),
                      m,
                    ))
          ]
  ]
]
