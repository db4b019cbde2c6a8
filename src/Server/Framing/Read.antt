-- ===== src/Server/Framing/Read.antt =====
-- Reading through a bufio.Reader in server/eventloop/netcon.go: no byte is lost or repeated.
use fleare.Prelude.{ℕ, ◌≡◌, refl, sym, ◌∙◌, ap, List, [], ◌∷◌, ◌++◌, take, drop, take-append-drop}
use mathlib.Core.List.{append_assoc}
use fleare.Prelude.Bytes.{Bytes}
use fleare.Server.Framing.{Chunk, bytes_of, push, conn_read, Reader, fill, pass_by, reader_read}

bytes-push : (bs : Bytes) (chunks : List Chunk) → bytes_of (push bs chunks) ≡ bs ++ bytes_of chunks
bytes-push [] chunks = refl
bytes-push (b ∷ bs) chunks = refl

pub push-append :
    (bs : Bytes) (own others : List Chunk) → push bs (own ++ others) ≡ push bs own ++ others
push-append [] own others = refl
push-append (b ∷ bs) own others = refl

-- What a read says of the bytes in front of the chunks `others`: `read` bytes come first, and then
-- what is left.
pub record Reads (total : Bytes) (others : List Chunk) (r : Bytes × Reader) : Type 0 where
  pub left : Bytes
  pub own : List Chunk
  pub reader_is : r.1 ≡ record { buffered = left; chunks = own ++ others }
  pub in_order : r.0 ++ (left ++ bytes_of own) ≡ total

-- A read takes the first bytes of the first chunk.
pub conn_read-bytes :
    (n : ℕ) (c : ℕ) (cs : Bytes) (own : List Chunk)
    → take n (c ∷ cs) ++ bytes_of (push (drop n (c ∷ cs)) own) ≡ bytes_of ((c, cs) ∷ own)
conn_read-bytes n c cs own =
    ap (λ (t : Bytes). take n (c ∷ cs) ++ t) (bytes-push (drop n (c ∷ cs)) own)
    ∙ sym (append_assoc (take n (c ∷ cs)) (drop n (c ∷ cs)) (bytes_of own))
    ∙ ap (λ (t : Bytes). t ++ bytes_of own) (take-append-drop n (c ∷ cs))

pub conn_read-Reads :
    (n : ℕ) (c : ℕ) (cs : Bytes) (own others : List Chunk)
    → Reads (bytes_of ((c, cs) ∷ own)) others (pass_by (conn_read n (((c, cs) ∷ own) ++ others)))
unfolding conn_read
conn_read-Reads n c cs own others = record {
  left = [];
  own = push (drop n (c ∷ cs)) own;
  reader_is =
      ap (λ (t : List Chunk). record { buffered = []; chunks = t })
        (push-append (drop n (c ∷ cs)) own others);
  in_order = conn_read-bytes n c cs own;
}

-- A read into the buffer, of which a part is taken.
pub fill-Reads :
    (n k : ℕ) (c : ℕ) (cs : Bytes) (own others : List Chunk)
    → Reads (bytes_of ((c, cs) ∷ own)) others (fill n (conn_read k (((c, cs) ∷ own) ++ others)))
unfolding conn_read
fill-Reads n k c cs own others = record {
  left = drop n (take k (c ∷ cs));
  own = push (drop k (c ∷ cs)) own;
  reader_is =
      ap (λ (t : List Chunk). record { buffered = drop n (take k (c ∷ cs)); chunks = t })
        (push-append (drop k (c ∷ cs)) own others);
  in_order =
      sym (
        append_assoc (take n (take k (c ∷ cs))) (drop n (take k (c ∷ cs)))
          (bytes_of (push (drop k (c ∷ cs)) own)))
      ∙ ap (λ (t : Bytes). t ++ bytes_of (push (drop k (c ∷ cs)) own))
          (take-append-drop n (take k (c ∷ cs)))
      ∙ conn_read-bytes k c cs own;
}

pub buffer-Reads :
    (n b : ℕ) (bs : Bytes) (own others : List Chunk)
    → Reads ((b ∷ bs) ++ bytes_of own) others (reader_read n (b ∷ bs) (own ++ others))
unfolding reader_read
buffer-Reads n b bs own others = record {
  left = drop n (b ∷ bs);
  own = own;
  reader_is = refl;
  in_order =
      sym (append_assoc (take n (b ∷ bs)) (drop n (b ∷ bs)) (bytes_of own))
      ∙ ap (λ (t : Bytes). t ++ bytes_of own) (take-append-drop n (b ∷ bs));
}
