-- ===== src/Evals/Regex/Syntax.antt =====
-- core/crates/evals/src/regex_mini.rs: the data of a compiled pattern. A character is its code
-- point. A `Vec<Piece>` is a `Pieces`, with the three fields of a piece in each constructor, and a
-- `Vec<Vec<Piece>>` is an `Alts`.
use aite.Base.{ℕ, Bool, Option, List}

pub data ClassItem : Type 0 where
  one : ℕ → ClassItem
  range : ℕ → ℕ → ClassItem
  digit word space : Bool → ClassItem

pub record CharClass : Type 0 where
  pub negated : Bool
  pub items : List ClassItem

mutual
  pub data Atom : Type 0 where
    char : ℕ → Atom
    any_char : Atom
    class : CharClass → Atom
    group : Alts → Atom
    at_start at_end : Atom

  pub data Pieces : Type 0 where
    no_pieces : Pieces
    piece : Atom → ℕ → Option ℕ → Pieces → Pieces

  pub data Alts : Type 0 where
    no_alts : Alts
    alt : Pieces → Alts → Alts

pub record Regex : Type 0 where
  pub alts : Alts
  pub source : List ℕ
