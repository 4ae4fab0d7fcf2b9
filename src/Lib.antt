-- ===== src/Lib.antt =====
-- The lint program of JP4Agent, tools/scripts/cpplint.py: a fork of a C++ style checker with checks of
-- this project, which tools/scripts/cpplint.sh runs over the agent's sources. A run reads the lines of a
-- file, cleanses them of comments and strings, follows the nesting of blocks line by line, and gives what
-- its checks find to an error handler, which NOLINT comments, filters and a verbosity hold back.
--
-- Files, each with the code it is about (functions of tools/scripts/cpplint.py):
--   Prelude      texts as lists of character codes, numbers, lists, the tests shared by all parts
--   Regex        the patterns of the re module as a data type, and a backtracking matcher for them: Match,
--                Search, ReplaceAll. Meaning holds the relation they decide
--   Lint         the error handler: Categories (the tables), Report (the arguments of a call of it), Suppress
--                (ParseNolintSuppressions, ProcessGlobalSuppresions, IsErrorSuppressedByNolint), State
--                (_CppLintState), Handler (_ShouldPrintError, Error), Effects (what a check does to the
--                globals: reports, NOLINT comments, exceptions)
--   Include      _IncludeState
--   Function     _FunctionState
--   Cleanse      RawStrings (CleanseRawStrings), Multiline (RemoveMultiLineComments), Comments
--                (CleanseComments), Strings (_CollapseStrings), Lines (CleansedLines)
--   Expression   Forward (CloseExpression), Backward (ReverseCloseExpression), Inside (_GetTextInside)
--   Nesting      Blocks (_BlockInfo and its subclasses, NestingState), Ends (CheckBegin, CheckEnd),
--                Preprocessor (UpdatePreprocessor), Template (InTemplateArgumentList), Update (Update),
--                Queries (InnermostClass and the checks of namespace indentation)
--   Function.Arguments  _FunctionArguments
--   Checks       Files (CheckForCopyright, CheckForBadCharacters, CheckForNewlineAtEOF), Lines, Features,
--                Comments (CheckComment), Lengths (CheckForFunctionLengths)
--   Naming       the checks of this project on names: Types, Functions, Variables (JuniperCheck*)
--   Cli          the command line of the agent, cli/cli.py: one round of its loop, and Session, the loop
--   Style        the checks of CheckStyle: Width (GetLineWidth), Spacing, Operators, Parens, Initializers
--                (CheckBracesSpacing, _IsType), Sections, Braces, Semicolons (CheckTrailingSemicolon), Bodies
--                (CheckEmptyBlockBody), Macros (CheckCheck)
--   Headers      Paths (os.path on texts, PathSplitToList), Info (FileInfo), Guards
--                (GetHeaderGuardCPPVariable, CheckForHeaderGuard), Classify (_ClassifyInclude), Lines
--                (CheckIncludeLine), Modules (FilesBelongToSameModule, CheckHeaderFileIncluded), Templates and
--                Required (CheckForIncludeWhatYouUse)
--   Language     General (CheckLanguage), Casts, Strings (CheckGlobalStatic), Printf, Arrays, References
--                (CheckForNonConstReference), Overrides, Constructs (CheckForNonStandardConstructs)
--   Process      Style (CheckStyle), Line (ProcessLine), File (ProcessFileData)
--   Samples      runs at concrete inputs
--
-- State is passed explicitly. A check returns the reports that the source gives to `error`, in their order;
-- Handler runs them over the globals of the module. A check that also reads NOLINT comments or may raise an
-- IndexError returns a list of effects (Lint.Effects), which end at the exception with the globals that it
-- leaves; a run of ProcessFileData is done or raised. A position that is -1 in the source is an Option.
--
-- Loops that are not structural run on fuel: a round of a loop over a line drops at least one character
-- from it or ends the loop, so that the length of the line (plus one) is enough; a round of
-- RemoveMultiLineComments moves behind the end of a comment, so that the number of lines is enough; a
-- round of PathSplitToList and of the loop up to the root of a checkout takes a component off a path; a
-- round of the loop up a Subversion checkout goes to the directory above, until one has no .svn; a
-- round of the loop over operator methods makes underscores of one operator that is none yet, and a
-- round over the operands of a CHECK reads a character at least. A star of a pattern runs on the length
-- of the text that is left, since a round that reads nothing ends it.
--
-- Not modelled: file input and output, CPPLINT.cfg and the command line of the program (ProcessFile,
-- ProcessConfigOverrides, ParseArguments, main), and check functions given from outside
-- (extra_check_functions), of which the program gives none. The file system that FileInfo asks (os.path) and
-- the tables of unicodedata are parameters; the functions of os.path on texts are in Headers.Paths. Of the
-- file system it is asked that above every file is a directory without .svn (FileSystem.has_top), since the
-- loop of RepositoryName does not end in another; such file systems are left out.
-- A dictionary is a list in the order of insertion, so that reports of headers to include come in
-- that order, which Python 2 leaves open. Texts are lists of character codes; the program reads a file
-- as UTF-8, and classes of characters (\w, \s, \d) are those of ASCII, as they are without
-- re.UNICODE; strip, split and isspace of a line take the white space of Unicode, and those of what comes from
-- the command line, which is bytes, that of ASCII.
pub mod Prelude
pub mod Regex
pub mod Lint
pub mod Include
pub mod Function
pub mod Cleanse
pub mod Expression
pub mod Nesting
pub mod Checks
pub mod Naming
pub mod Cli
pub mod Style
pub mod Headers
pub mod Language
pub mod Process
pub mod Samples
