-- ===== src/Db/Query.antt =====
-- The queries of db_connector.cpp: the text that `sprintf` writes into `char query[100]`, and the
-- rows that come back.
use jbjb.Base.{
  ℕ, zero, suc, List, [], ◌∷◌, ◌++◌, length, ltb, ◌==◌, if◌then◌else◌, Result, ok, fault,
  buffer_overflow,
}
use jbjb.Base.Int.{ℤ}
use jbjb.Base.Texts.{Text, codes}
use jbjb.World.{External}

-- What `%s` writes of `s.c_str()`: the bytes before the first zero.
unfoldable pub c_str : Text → Text
c_str [] = []
c_str (c ∷ s) = if c == 0 then [] else c ∷ c_str s

abbrev pub select_user_info : Text → Text
select_user_info request_id =
    codes "SELECT win,lose,rating FROM user_info WHERE id='" ++ (c_str request_id ++ codes "'")

abbrev pub select_friends : Text → Text
select_friends request_id =
    codes "SELECT id_2 FROM friend_info WHERE id_1='" ++ (c_str request_id ++ codes "'")

abbrev pub insert_friend : Text → Text → Text
insert_friend request_id target_id =
    codes "INSERT INTO friend_info (id_1,id_2) VALUES ('"
    ++ (c_str request_id ++ (codes "','" ++ (c_str target_id ++ codes "')")))

abbrev pub delete_friend : Text → Text → Text
delete_friend request_id target_id =
    codes "DELETE FROM friend_info WHERE id_1='"
    ++ (c_str request_id ++ (codes "' AND id_2='" ++ (c_str target_id ++ codes "'")))

abbrev pub select_friend : Text → Text → Text
select_friend request_id target_id =
    codes "SELECT * FROM friend_info WHERE id_1 = '"
    ++ (c_str request_id ++ (codes "' and id_2 = '" ++ (c_str target_id ++ codes "'")))

abbrev pub query_size : ℕ
query_size = 100

-- `sprintf` into the array: the text and the zero behind it have to fit.
unfoldable pub format : Text → Result Text
format text = if ltb (length text) query_size then ok text else fault buffer_overflow

-- A row of the answer; every query names the columns that are read.
unfoldable pub column : List Text → ℕ → Text
column [] k = []
column (c ∷ row) zero = c
column (c ∷ row) (suc k) = column row k

pub record Columns : Type 0 where
  pub win : ℤ
  pub lose : ℤ
  pub rating : ℤ

-- The `while` loop over the rows: the last row stays.
unfoldable pub user_columns : {S D : Type 0} → External S D → Columns → List (List Text) → Columns
unfolding column
user_columns x now [] = now
user_columns x now (row ∷ rest) =
    user_columns x
      (record {
        win = x.atoi (column row 0);
        lose = x.atoi (column row 1);
        rating = x.atoi (column row 2);
      })
      rest
