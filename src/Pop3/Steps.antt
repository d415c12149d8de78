-- ===== src/Pop3/Steps.antt =====
-- What the ends of a turn of the handler's loop keep.
use seclab_suite_protocol_si.Base.{Option, none, some}
use seclab_suite_protocol_si.Base.Text.{Text}
use seclab_suite_protocol_si.Report.{Peer}
use seclab_suite_protocol_si.Session.Lines.{LineStep}
use seclab_suite_protocol_si.Session.Reach.{Leads}
use seclab_suite_protocol_si.Pop3.{Pop3Context, Pop3Session}
use seclab_suite_protocol_si.Pop3.Commands.{
  Pop3Command, Reply, auth, capa, dele, list_messages, noop, pass, quit, retrieve, rset, stat, uidl,
  unknown, user_command,
}
use seclab_suite_protocol_si.Pop3.Handler.{Pop3State, answer_custom, finish, ready}

module _ (P : Pop3State → Type 0) (ctx : Pop3Context) (peer : Peer) where
  pub finish-keeps :
      (line : Text) (command : Pop3Command) (r : Reply)
      → P (ready r.session)
      → Leads P (finish ctx peer line command r)
  finish-keeps line quit r h = tt
  finish-keeps line capa r h = h
  finish-keeps line user_command r h = h
  finish-keeps line pass r h = h
  finish-keeps line auth r h = h
  finish-keeps line stat r h = h
  finish-keeps line list_messages r h = h
  finish-keeps line uidl r h = h
  finish-keeps line retrieve r h = h
  finish-keeps line dele r h = h
  finish-keeps line rset r h = h
  finish-keeps line noop r h = h
  finish-keeps line unknown r h = h

  pub answer_custom-keeps :
      (session : Pop3Session) (line : Text) (custom : Option (Text × Text))
      (otherwise : LineStep Pop3State)
      → P (ready session)
      → Leads P otherwise
      → Leads P (answer_custom ctx peer session line custom otherwise)
  answer_custom-keeps session line none otherwise h k = k
  answer_custom-keeps session line (some (response, event_type)) otherwise h k = h
