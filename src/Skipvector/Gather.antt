-- ===== src/Skipvector/Gather.antt =====
-- `gather_prevs` of skipvector_disco.h: the remote addresses of the nodes that cover a key.
use disco_skip.Prelude.{ℕ, suc, ◌+◌, ◌-◌, ◌≤◌, ◌<◌, ◌≡◌, ◌≢◌, refl, sym, ◌∙◌}
use disco_skip.Prelude.{ltb-true, ap, arith, ℕ_discrete, true, some}
use disco_skip.Prelude.{List, [], ◌∷◌, ◌++◌, ltb, if◌then◌else◌, ◌⊎◌, inr}
use disco_skip.Prelude.{length, get_elem?, set, length-set, get_elem?-set}
use disco_skip.SvLock.{confirm_read}
use disco_skip.Skipvector.Nodes.{Layer, Attempt, ok, fault, check, ◌>>=◌, ◌>>◌}
use disco_skip.Skipvector.Descent.{Cursor, Skipvector, check_next, head_of, follow}
use disco_skip.Skipvector.Walk.{Reaches, Covers, unlocked-confirm, check_next_lem, parts-at}
use disco_skip.Skipvector.Locate.{
  IsStructure, IsTower, tower-layer, tower-directory, follow-Covers, top_lem,
}

-- `prev_addrs[level] = addr`, in an array with these entries; there is no entry behind its end to write.
unfoldable pub write_prev : ℕ → ℕ → List ℕ → Attempt (List ℕ)
write_prev level addr prev_addrs =
    if ltb level (length prev_addrs) then ok (set prev_addrs level addr) else fault

-- The layers below the cursor's, and the number of the cursor's layer. Each `follow` leaves the remote
-- address of the node that it comes from in `prev_addrs`, below the height.
unfoldable pub gather_layers : ℕ → ℕ → Cursor → List Layer → ℕ → List ℕ → Attempt (Cursor × List ℕ)
gather_layers k height c [] layer prev_addrs = ok (c, prev_addrs)
gather_layers k height c (below ∷ others) layer prev_addrs = do
  (down, addr) ← follow k c below
  prev_addrs ← (if ltb layer height then write_prev layer addr prev_addrs else ok prev_addrs)
  gather_layers k height down others (layer - 1) prev_addrs

-- One attempt of `gather_prevs`: what it leaves in `prev_addrs`.
unfoldable pub gather_prevs : Skipvector → ℕ → ℕ → List ℕ → Attempt (List ℕ)
gather_prevs s k height prev_addrs = elim s.index [
  | [] ↦ fault
  | top ∷ others ↦ (do
    c ← head_of top
    (c, prev_addrs) ←
        gather_layers k height c (others ++ s.directory ∷ []) (length others + 1) prev_addrs
    c ← check_next k c.before c.curr c.curr_lock c.behind
    check (confirm_read c.curr.lock c.curr_lock)
    write_prev 0 c.curr.remote_addr prev_addrs)
]

-- The address at a level is that of the node that covers the key there.
abbrev pub IsCovering : ℕ → Layer → ℕ → List ℕ → Type 0
IsCovering k layer level prev_addrs =
    (c : Cursor) × Covers k layer c × (get_elem? prev_addrs level ≡ some c.curr.remote_addr)

module _ (cap capd k height : ℕ) where
  abbrev noted : ℕ → ℕ → List ℕ → List ℕ
  noted layer addr prev_addrs = if ltb layer height then set prev_addrs layer addr else prev_addrs

  noted-other :
      (layer addr : ℕ) (prevs : List ℕ) (level : ℕ)
      → level ≢ layer
      → get_elem? (noted layer addr prevs) level ≡ get_elem? prevs level
  noted-other layer addr prevs level h = ground (arith, get_elem?-set prevs layer level addr)

  noted-same :
      (layer addr : ℕ) (prevs : List ℕ)
      → layer < height
      → layer < length prevs
      → get_elem? (noted layer addr prevs) layer ≡ some addr
  noted-same layer addr prevs h g = ground (arith, get_elem?-set prevs layer layer addr)

  -- Below the height there is an entry.
  write-noted :
      (layer addr : ℕ) (prevs : List ℕ)
      → height ≤ length prevs
      → (if ltb layer height then write_prev layer addr prevs else ok prevs)
        ≡ ok (noted layer addr prevs)
  unfolding write_prev
  write-noted layer addr prevs h = ground arith

  noted-high :
      (layer addr : ℕ) (prevs : List ℕ) (level : ℕ)
      → height ≤ level
      → get_elem? (noted layer addr prevs) level ≡ get_elem? prevs level
  noted-high layer addr prevs level h = ground (arith, get_elem?-set prevs layer level addr)

  length-noted : (layer addr : ℕ) (prevs : List ℕ) → length (noted layer addr prevs) ≡ length prevs
  length-noted layer addr prevs = ground (arith, length-set prevs layer addr)

  -- What the descent has gathered.
  record Gathered (layers : List Layer) (prevs prevs' : List ℕ) : Type 0 where
    same_length : length prevs' ≡ length prevs
    unchanged :
        (level : ℕ)
        → (level ≡ 0) ⊎ (length layers < level)
        → get_elem? prevs' level ≡ get_elem? prevs level
    untouched : (level : ℕ) → height ≤ level → get_elem? prevs' level ≡ get_elem? prevs level
    covering :
        (level : ℕ)
        → 0 < level
        → level < height
        → level < length prevs
        → level ≤ length layers
        → (layer : Layer) × (get_elem? layers (length layers - level) ≡ some layer)
          × IsCovering k layer level prevs'

  Gathered-first :
      (top : Layer) (prevs : List ℕ) (at : Cursor)
      → Covers k top at
      → Gathered (top ∷ []) prevs (noted 1 at.curr.remote_addr prevs)
  Gathered-first top prevs at covers = record {
    same_length = length-noted 1 at.curr.remote_addr prevs;
    unchanged = λ level h. noted-other 1 at.curr.remote_addr prevs level (ground arith);
    untouched = noted-high 1 at.curr.remote_addr prevs;
    covering = λ level pos below inside high.
        let one : 1 ≡ level = omega arith in
        rw (sym one) (
          top,
          refl,
          (at, covers, noted-same 1 at.curr.remote_addr prevs (omega arith) (omega arith)),
        );
  }

  Gathered-more :
      (top next : Layer) (others : List Layer) (prevs prevs' : List ℕ) (at : Cursor)
      → Covers k top at
      → Gathered (next ∷ others) (noted (suc (length others) + 1) at.curr.remote_addr prevs) prevs'
      → Gathered (top ∷ next ∷ others) prevs prevs'
  Gathered-more top next others prevs prevs' at covers h =
      let n : ℕ = suc (length others) + 1 in
      let addr = at.curr.remote_addr in
      let same = length-noted n addr prevs in
      record {
        same_length = h.same_length ∙ same;
        unchanged = λ level out.
            h.unchanged level (ground arith) ∙ noted-other n addr prevs level (ground arith);
        untouched = λ level high. h.untouched level high ∙ noted-high n addr prevs level high;
        covering = λ level pos below inside high. elim (ℕ_discrete level n) [
          | yes e ↦ (
            top,
            ap (get_elem? (top ∷ next ∷ others)) {y = 0} (omega (arith, e)),
            (
              at,
              covers,
              h.unchanged level (inr (omega (arith, e)))
                  ∙ ap (get_elem? (noted n addr prevs)) e
                  ∙ noted-same n addr prevs (omega (arith, e)) (omega (arith, e)),
            ),
          )
          | no e ↦
              let (layer, there, covering) =
                h.covering level pos below (omega (arith, same)) (omega (arith, e)) in
              (
                layer,
                ap (get_elem? (top ∷ next ∷ others)) {y = suc (suc (length others) - level)}
                      (omega (arith, e))
                    ∙ there,
                covering,
              )
        ];
      }

  gather_layers_lem :
      (top : Layer) (others : List Layer) (d : Layer) (c : Cursor) (prevs : List ℕ)
      → IsTower cap capd top others d
      → height ≤ length prevs
      → Reaches k top c
      → (c' : Cursor) × (prevs' : List ℕ) × (gather_layers k height c
            (others ++ d ∷ [])
            (length others + 1)
            prevs
          ≡ ok (c', prevs'))
        × Reaches k d c'
        × Gathered (top ∷ others) prevs prevs'
  unfolding gather_layers IsTower
  gather_layers_lem top [] d c prevs t large r =
      let (at, down, eq, covers, reached) = follow-Covers cap capd k top d t.0 t.1.0 t.1.1 c r in
      let addr = at.curr.remote_addr in
      (
        down,
        noted 1 addr prevs,
        rw eq (rw (write-noted 1 addr prevs large) refl),
        reached,
        Gathered-first top prevs at covers,
      )
  gather_layers_lem top (next ∷ others) d c prevs t large r =
      let (at, down, eq, covers, reached) =
        follow-Covers cap cap k top next t.0.0 (tower-layer cap capd next others d t.1) t.0.1 c r in
      let addr = at.curr.remote_addr in
      let n : ℕ = suc (length others) + 1 in
      let (c', prevs', eq', reached', gathered) =
        gather_layers_lem next others d down (noted n addr prevs) t.1
          (omega (arith, large, length-noted n addr prevs)) reached in
      (
        c',
        prevs',
        rw eq (
            rw (write-noted n addr prevs large) (
              ap (λ l. gather_layers k height down (others ++ d ∷ []) l (noted n addr prevs))
                (omega arith)
              ∙ eq')),
        reached',
        Gathered-more top next others prevs prevs' at covers gathered,
      )

module _ {cap capd : ℕ} (k : ℕ) {s : Skipvector} (sound : IsStructure cap capd s) where
  gather_prevs-run :
      (height : ℕ) (prevs prevs' : List ℕ) (c c1 c2 : Cursor)
      → head_of sound.top ≡ ok c
      → gather_layers k height c (sound.others ++ s.directory ∷ []) (length sound.others + 1) prevs
        ≡ ok (c1, prevs')
      → check_next k c1.before c1.curr c1.curr_lock c1.behind ≡ ok c2
      → confirm_read c2.curr.lock c2.curr_lock ≡ true
      → 0 < length prevs'
      → gather_prevs s k height prevs ≡ ok (set prevs' 0 c2.curr.remote_addr)
  unfolding gather_prevs write_prev
  gather_prevs-run height prevs prevs' c c1 c2 p q r t some_entry =
      rw (sound.layers, gather_prevs)
        (rw p (rw q (rw r (rw t (rw (ltb-true 0 (length prevs') some_entry) refl)))))

  -- In a structure at rest, for a height above zero and an array with at least so many entries, one
  -- attempt of `gather_prevs` succeeds and writes no entry behind the end of the array. At each level of
  -- the structure below the height, it leaves the remote address of the node that covers the key there.
  -- The array keeps its length, and the entries at the height and above are left as they were.
  pub gather_prevs_lem :
      (height : ℕ) (prev_addrs : List ℕ)
      → 0 < height
      → height ≤ length prev_addrs
      → (prev_addrs' : List ℕ) × (gather_prevs s k height prev_addrs ≡ ok prev_addrs')
        × IsCovering k s.directory 0 prev_addrs'
        × ((level : ℕ)
            → 0 < level
            → level < height
            → level ≤ length s.index
            → (layer : Layer) × (get_elem? s.index (length s.index - level) ≡ some layer)
              × IsCovering k layer level prev_addrs')
        × (length prev_addrs' ≡ length prev_addrs)
        × ((level : ℕ) → height ≤ level → get_elem? prev_addrs' level ≡ get_elem? prev_addrs level)
  gather_prevs_lem height prevs some_level large =
      let (c, at_top, reached) = top_lem k sound in
      let (c1, prevs', gathers, landed, gathered) =
        gather_layers_lem cap capd k height sound.top sound.others s.directory c prevs sound.tower
          large reached in
      let directory_sound =
        tower-directory cap capd sound.top sound.others s.directory sound.tower in
      let (c2, walked, covers, found) = check_next_lem capd k directory_sound c1 landed in
      let confirmed : confirm_read c2.curr.lock c2.curr_lock ≡ true = rw covers.reached.word (
        unlocked-confirm c2.curr.lock
          (parts-at capd k directory_sound covers.reached).0.unlocked) in
      let addr = c2.curr.remote_addr in
      (
        set prevs' 0 addr,
        gather_prevs-run height prevs prevs' c c1 c2 at_top gathers walked confirmed
            (omega (arith, gathered.same_length)),
        (c2, covers, ground (arith, get_elem?-set prevs' 0 0 addr, gathered.same_length)),
        λ level pos below high.
            let (layer, there, (at, covering, e)) =
              gathered.covering level pos below (omega arith)
                (omega (arith, ap length sound.layers)) in
            (
              layer,
              ap (λ index. get_elem? index (length index - level)) sound.layers ∙ there,
              (at, covering, ground (arith, get_elem?-set prevs' 0 level addr)),
            ),
        length-set prevs' 0 addr ∙ gathered.same_length,
        λ level high.
            ground (arith, get_elem?-set prevs' 0 level addr, gathered.untouched level high),
      )
