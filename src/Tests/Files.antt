-- ===== src/Tests/Files.antt =====
-- A file that is held in memory: what the process sees, what it handed over, what the disk holds,
-- and the position.
use ground_hog.Prelude.{
  ℕ, zero, suc, ◌≤◌, ◌+◌, ◌≡◌, refl, sym, ap, ◌∙◌, [], ◌∷◌, ◌++◌, length, take, drop, take-all,
  append-nil, arith,
}
use ground_hog.Prelude.Outcome.{ok}
use ground_hog.Bytes.{Bytes}
use ground_hog.Storage.{Contract}
use ground_hog.FileStorage.{File, FileLaws}
use ground_hog.FileStorage.Sound.{IsSound, written, durable, file_store, file_store-Contract}

record Page : Type 0 where
  pub shown : Bytes
  pub given : Bytes
  pub platter : Bytes
  pub position : ℕ

-- Bytes put at a position replace those that stand there.
abbrev put_at : ℕ → Bytes → Bytes → Bytes
put_at n bytes old = take n old ++ (bytes ++ drop (n + length bytes) old)

abbrev page_file : File Page
page_file = record {
  read = λ p. (ok (drop p.position p.shown), record p { position = length p.shown });
  seek = λ n p. (ok tt, record p { position = n });
  write = λ bytes p. (
    ok tt,
    record p { shown = put_at p.position bytes p.shown; position = p.position + length bytes },
  );
  truncate = λ n p. (ok tt, record p { shown = take n p.shown });
  flush = λ p. (ok tt, record p { given = p.shown });
  fsync = λ p. (ok tt, record p { platter = p.given });
}

drop-past : (n : ℕ) (xs : Bytes) → length xs ≤ n → drop n xs ≡ []
drop-past zero [] h = refl
drop-past zero (x ∷ xs) h = absurd (omega arith)
drop-past (suc n) [] h = refl
drop-past (suc n) (x ∷ xs) h = drop-past n xs (omega arith)

-- A write at the end extends the file.
put_at-end : (n : ℕ) (bytes old : Bytes) → n ≡ length old → put_at n bytes old ≡ old ++ bytes
put_at-end n bytes old e =
    let kept : take n old ≡ old = take-all n old (omega arith) in
    let over : drop (n + length bytes) old ≡ [] = drop-past (n + length bytes) old (omega arith) in
    rw (kept, over, append-nil) refl

page_laws : FileLaws page_file (λ p. p.shown) (λ p. p.given) (λ p. p.platter) (λ p. p.position)
page_laws = record {
  seeks = λ n f g e.
      (sym (ap (λ r. r.1.shown) e), sym (ap (λ r. r.1.position) e), sym (ap (λ r. r.1.platter) e));
  writes = λ bytes f g e at_end.
      sym (ap (λ r. r.1.shown) e) ∙ put_at-end f.position bytes f.shown at_end;
  flushes = λ f g e. (sym (ap (λ r. r.1.shown) e), sym (ap (λ r. r.1.given) e));
  fsyncs = λ f g e. (sym (ap (λ r. r.1.shown) e), sym (ap (λ r. r.1.platter) e));
}

file_store-Contract_example :
    Contract
      (file_store page_file
        (λ p. p.shown)
        (λ p. p.given)
        (λ p. p.platter)
        (λ p. p.position)
        page_laws)
      (IsSound page_file (λ p. p.shown) (λ p. p.given) (λ p. p.platter) (λ p. p.position) page_laws)
      (written page_file (λ p. p.shown) (λ p. p.given) (λ p. p.platter) (λ p. p.position) page_laws)
      (durable page_file (λ p. p.shown) (λ p. p.given) (λ p. p.platter) (λ p. p.position) page_laws)
file_store-Contract_example =
    file_store-Contract page_file (λ p. p.shown) (λ p. p.given) (λ p. p.platter) (λ p. p.position)
      page_laws
