-- ===== src/Client/Loop.antt =====
-- The loop of client_main.cpp: one round reads the number of a command, the word for it, and the
-- answer to "Other Command? Y/N". When nothing more is typed the program waits. The thread `t1`
-- runs the io_service beside it: what it does before a round is a list of events.
use jbjb.Base.{
  ℕ, Bool, false, ◌||◌, Option, none, some, List, [], ◌∷◌, ◌==◌, if◌then◌else◌, Result, ok, fault,
  uninitialised_read, ◌>>=◌,
}
use jbjb.Base.Texts.{Text}
use jbjb.Client.Menu.{
  Menu, lobby_login, lobby_logout, play, play_with_friends, search_for, add, del, accept, deny,
  menu_code, choose,
}
use jbjb.Client.{Client, Generated, connect_handle, recv_handle, send_handle}

-- The end of a connect, of a read or of a write; the flag is an error.
pub data IoEvent : Type 0 where
  connected : Bool → IoEvent
  received : Bool → Text → IoEvent
  sent : IoEvent

-- What is typed in a round, and what the other thread does before its command; the answer is the
-- code of a letter. `menu` is `none` where no number can be read, and `yes_or_no` where the input
-- ends before it; to the `switch` a negative number is as 0.
pub record Round : Type 0 where
  pub events : List IoEvent
  pub menu : Option ℕ
  pub word : Text
  pub yes_or_no : Option ℕ

-- The cases of the `switch`; `none` is `default`.
unfoldable pub menu_of : ℕ → Option Menu
menu_of menu =
    if menu == menu_code lobby_login
    then some lobby_login
    else if menu == menu_code lobby_logout
    then some lobby_logout
    else if menu == menu_code play
    then some play
    else if menu == menu_code play_with_friends
    then some play_with_friends
    else if menu == menu_code search_for
    then some search_for
    else if menu == menu_code add
    then some add
    else if menu == menu_code del
    then some del
    else if menu == menu_code accept
    then some accept
    else if menu == menu_code deny
    then some deny
    else none

-- The command of a round. Where no number can be read, `menu` is 0.
abbrev pub chosen : Option ℕ → Option Menu
chosen none = none
chosen (some menu) = menu_of menu

-- What `std::cin >> yes_or_no` reads: nothing at the end of the input, nor after a number could not
-- be read, since the stream has then failed. The variable is not initialised.
abbrev pub answer_of : Option ℕ → Option ℕ → Option ℕ
answer_of none yes_or_no = none
answer_of (some menu) yes_or_no = yes_or_no

-- 'y' or 'Y', and 'N' or 'n'.
abbrev pub is_yes : ℕ → Bool
is_yes answer = answer == 121 || answer == 89

abbrev pub is_no : ℕ → Bool
is_no answer = answer == 78 || answer == 110

module _ (g : Generated) where
  pub command : Round → Text → Client → Result (Client × Text)
  command round token c = elim (chosen round.menu) [
    | none ↦ ok (c, token)
    | some menu ↦ choose g menu round.word token c
  ]

  -- The handlers of `t1`. What is not under way does not end.
  pub handle_event : IoEvent → Client → Result Client
  handle_event (connected error) c = if c.is_connecting then ok (connect_handle error c) else ok c
  handle_event (received error bytes) c = if c.is_reading then recv_handle g error bytes c else ok c
  handle_event sent c = elim c.send_data_que [ [] ↦ ok c | _ ∷ _ ↦ send_handle c ]

  pub handle_events : List IoEvent → Client → Result Client
  handle_events [] c = ok c
  handle_events (event ∷ events) c = handle_event event c >>= handle_events events

  -- The two tests at the end of a round.
  pub after_answer : Option ℕ → Client → Text → Result (Client × Text) → Result (Client × Text)
  after_answer none c token more = fault uninitialised_read
  after_answer (some yes_or_no) c token more =
      if is_yes yes_or_no
      then more
      else if is_no yes_or_no
      then ok (record c { is_open = false }, token)
      else more

  pub main_loop : List Round → Text → Client → Result (Client × Text)
  main_loop [] token c = ok (c, token)
  main_loop (round ∷ rounds) token c =
      handle_events round.events c >>= command round token >>= λ (c', token').
      let more = main_loop rounds token' c' in
      after_answer (answer_of round.menu round.yes_or_no) c' token' more
