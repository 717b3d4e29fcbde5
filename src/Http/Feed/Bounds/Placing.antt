-- ===== src/Http/Feed/Bounds/Placing.antt =====
-- What one pass over a node keeps, up to the loop over the header lines.
use litehttp_c.Base.{
  ℕ, zero, suc, ◌+◌, ◌≤◌, ◌≡◌, ◌^◌, size_add, size_sub, [], ◌∷◌, ◌++◌, Option, none, some, Bytes,
  length, ◌==◌, ◌>>=◌, arith, ◌⊎◌, inl, inr, Option-cases, Bool-cases,
}
use litehttp_c.Http.ParseCtx.{
  HttpParseCtx, http_parse_wait_hdr, http_parse_wait_fix_body, http_parse_wait_cval, BodyType,
  http_transfer_body_unset, http_transfer_body_fixed, http_transfer_body_chunked, Build, debug,
  release, update_ctx_to_next_clrf, get_ctx_focus_line, substr, Mem,
}
use litehttp_c.Http.ParseCtx.Header.{parse_header_line}
use litehttp_c.Http.ParseCtx.Lines.{MayStop, Frame, parse_header_line-Frame, update_ctx_lem}
use litehttp_c.Http.Feed.{
  Pass, returned, sticky, label_end, label_wait_cval, label_wait_clen, label_wait_fix_body,
  start_body, Headers, stopped, left, header_step, header_loop, after_headers, label_wait_hdr, room,
}
use litehttp_c.Http.Feed.Append.{room_large}
use litehttp_c.Http.ParseCtx.Tokens.{substr-le}

-- The place where the node reads and its next line lie within the text. But for a node that waits for its body, no request is thought to end
-- behind it.
pub record Inv (c : HttpParseCtx) : Type 0 where
  pub in_post : c.next_line ≤ length c.post
  pub cur_in_post : c.cur ≤ length c.post
  pub full : (c.wait_state ≡ http_parse_wait_fix_body) ⊎ (c.post_full_length ≤ c.next_line)

-- Only a build with assertions stops on one, and only a text that a string cannot hold is a fault.
abbrev pub MayFault : Build → Bytes → Type 0
MayFault debug text = Unit {0}
MayFault release text = 2 ^ 30 ≤ length text + 1

pub may_fault : (build : Build) (text : Bytes) → MayStop build → MayFault build text
may_fault debug text k = tt
may_fault release text k = absurd k

-- A pass over a node with this text keeps the invariant and the text, when it is no fault.
abbrev pub Kept : Build → Bytes → Option Pass → Type 0
Kept build text none = MayFault build text
Kept build text (some (returned c e)) = Inv c × (c.post ≡ text)
Kept build text (some (sticky _ _)) = ⊥

pub end-Kept :
    (build : Build) (mem : Mem) (post : Bytes) (c : HttpParseCtx)
    → c.next_line ≤ length c.post
    → c.post_full_length ≤ c.next_line
    → c.cur ≤ length c.post
    → Kept build c.post (label_end build mem post c)
unfolding label_end
end-Kept debug mem post c h k w = ground arith
end-Kept release mem post c h k w = ground arith

pub fix_body-Kept :
    (build : Build) (mem : Mem) (post : Bytes) (c : HttpParseCtx)
    → c.next_line ≤ length c.post
    → c.cur ≤ length c.post
    → Kept build c.post (label_wait_fix_body build mem post c)
unfolding label_wait_fix_body label_end
fix_body-Kept debug mem post c h w = ground arith
fix_body-Kept release mem post c h w =
    let full = size_add c.cur c.body_length in
    let body = substr c.post c.cur (size_sub full c.cur) in
    elim (Option-cases (room (length body))) [
      | inl e ↦
          let large = room_large (length body) e in
          let within = substr-le c.post c.cur (size_sub full c.cur) in
          rw (e, label_wait_fix_body) (ground arith)
      | inr (cap, e) ↦ rw (e, label_wait_fix_body) (ground arith)
    ]

-- A node whose places lie in this text, outside its body.
abbrev pub Placed : Bytes → HttpParseCtx → Type 0
Placed text c =
    (c.next_line ≤ length c.post)
    × (c.post_full_length ≤ c.next_line)
    × (c.post ≡ text)
    × (c.cur ≤ length c.post)

pub Placed-Frame : (text : Bytes) (c d : HttpParseCtx) → Placed text c → Frame c d → Placed text d
Placed-Frame text c d p f = ground arith

pub update-Placed :
    (text : Bytes) (c d : HttpParseCtx)
    → Placed text c
    → update_ctx_to_next_clrf c ≡ some d
    → Placed text d
update-Placed text c d p e = ground (arith, update_ctx_lem c d e)

abbrev pub LoopKept : Build → Bytes → Option Headers → Type 0
LoopKept build text none = MayStop build
LoopKept build text (some (stopped c e)) = Placed text c
LoopKept build text (some (left c n)) = Placed text c

abbrev pushed : HttpParseCtx → HttpParseCtx
pushed c = record c { header_list = c.header_list ++ (get_ctx_focus_line c ∷ []) }

header_step-Kept :
    (build : Build) (mem : Mem) (text : Bytes) (next : HttpParseCtx → Option Headers) (n : ℕ)
    (c : HttpParseCtx)
    → Placed text c
    → ((d : HttpParseCtx) → Placed text d → LoopKept build text (next d))
    → LoopKept build text (header_step build mem next n c)
unfolding header_step
header_step-Kept debug mem text next n c p keep = elim (Option-cases (update_ctx_to_next_clrf c)) [
  | inl e ↦ rw (e, header_step) p
  | inr (c1, e) ↦
      rw (e, header_step)
        (let p1 = update-Placed text c c1 p e in
          let d = (parse_header_line mem (pushed c1) (get_ctx_focus_line c1)).0 in
          let p2 =
            Placed-Frame text (pushed c1) d p1
              (parse_header_line-Frame mem (pushed c1) (get_ctx_focus_line c1)) in
          ground (arith, keep d p2, p1, p2, update_ctx_lem c c1 e))
]
header_step-Kept release mem text next n c p keep =
    elim (Option-cases (update_ctx_to_next_clrf c)) [
      | inl e ↦ rw (e, header_step) p
      | inr (c1, e) ↦
          rw (e, header_step)
            (let p1 = update-Placed text c c1 p e in
              let d = (parse_header_line mem (pushed c1) (get_ctx_focus_line c1)).0 in
              let p2 =
                Placed-Frame text (pushed c1) d p1
                  (parse_header_line-Frame mem (pushed c1) (get_ctx_focus_line c1)) in
              ground (arith, keep d p2, p1, p2, update_ctx_lem c c1 e))
    ]

pub header_loop-Kept :
    (build : Build) (mem : Mem) (text : Bytes) (rounds n : ℕ) (c : HttpParseCtx)
    → Placed text c
    → LoopKept build text (header_loop build mem rounds n c)
unfolding header_loop
header_loop-Kept build mem text zero n c p = p
header_loop-Kept build mem text (suc rounds) n c p =
    header_step-Kept build mem text (header_loop build mem rounds (n + 1)) n c p
      (header_loop-Kept build mem text rounds (n + 1))

start_body-Kept :
    (build : Build) (mem : Mem) (post : Bytes) (body : BodyType) (text : Bytes) (c : HttpParseCtx)
    → Placed text c
    → Kept build text (start_body build mem post body c)
start_body-Kept build mem post http_transfer_body_unset text c p =
    rw (← p.2)
      (end-Kept build mem post (record c { post_full_length = c.next_line }) p.0 (omega arith) p.3)
start_body-Kept build mem post http_transfer_body_fixed text c p =
    rw (← p.2) (fix_body-Kept build mem post c p.0 p.3)
start_body-Kept build mem post http_transfer_body_chunked text c p =
    unfold label_wait_clen label_wait_cval in
    rw (← p.2)
      (end-Kept build mem post (record c { wait_state = http_parse_wait_cval }) p.0 p.1 p.3)

pub hdr-Kept :
    (build : Build) (mem : Mem) (post text : Bytes) (c : HttpParseCtx)
    → Placed text c
    → Kept build text (label_wait_hdr build mem post c)
unfolding label_wait_hdr
hdr-Kept build mem post text c p =
    let start = record c { wait_state = http_parse_wait_hdr } in
    go (header_loop build mem 100 1 start) (header_loop-Kept build mem text 100 1 start p)
  where
    go :
        (h : Option Headers)
        → LoopKept build text h
        → Kept build text (h >>= after_headers build mem post)
    go none k = may_fault build text k
    go (some (stopped d e)) k = (record { in_post = k.0; cur_in_post = k.3; full = inr k.1 }, k.2)
    go (some (left d n)) k = elim (Bool-cases (n == 100)) [
      | inl t ↦ rw t (record { in_post = k.0; cur_in_post = k.3; full = inr k.1 }, k.2)
      | inr t ↦ rw t (start_body-Kept build mem post d.body_type text d k)
    ]
